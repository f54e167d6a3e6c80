-- ===== src/Agent/Server/Lifetime/Safety.antt =====
-- What every reachable state of the agent keeps.
use jitenv.Base.{
  ℕ, ◌+◌, ◌≤◌, Option, none, some, List, [], ◌∷◌, ◌++◌, ◌≡◌, arith, length, length-append, ltb,
  ◌==◌, if◌then◌else◌,
}
use jitenv.Agent.Server.Lifetime.{
  Lifetime, max_concurrent_agent_conns, in_flight, started, Step, accept, reject, finish, rebuild,
  swap, swap_nil, wipe, cancel, shutdown, Reach, here, next,
}

-- how often a resolver is in a list
abbrev pub held : List ℕ → ℕ → ℕ
held [] id = 0
held (first ∷ others) id = let more = held others id in if first == id then 1 + more else more

abbrev pub of_current : Option ℕ → List ℕ
of_current none = []
of_current (some id) = id ∷ []

-- in how many places of the agent a resolver is
abbrev pub places : ℕ → Lifetime → ℕ
places id s =
    held s.holding id + held s.wiping id + held s.wiped id + held (of_current s.current) id

-- the resolvers that may hold plaintext: those that are not wiped
abbrev pub live : Lifetime → ℕ
live s = length s.holding + length s.wiping + length (of_current s.current)

held-append :
    (front back : List ℕ) (id : ℕ) → held (front ++ back) id ≡ held front id + held back id
held-append [] back id = omega arith
held-append (first ∷ others) back id = ground (arith, held-append others back id)

-- Every resolver that was made is in one place, and no other is anywhere.
abbrev pub Placed : Lifetime → Type 0
Placed s = (id : ℕ) → places id s ≡ (if ltb id s.made then 1 else 0)

abbrev Capped : Lifetime → Type 0
Capped s = in_flight s ≤ max_concurrent_agent_conns

split_length :
    (xs before after : List ℕ) (id : ℕ)
    → xs ≡ before ++ (id ∷ after)
    → length xs ≡ length (before ++ after) + 1
split_length xs before after id e =
    rw e (omega (arith, length-append before (id ∷ after), length-append before after))

split_held :
    (a : ℕ) (xs before after : List ℕ) (id : ℕ)
    → xs ≡ before ++ (id ∷ after)
    → held xs a ≡ held (before ++ after) a + held (id ∷ []) a
split_held a xs before after id e =
    rw e (ground (arith, held-append before (id ∷ after) a, held-append before after a))

Step-Capped : {s t : Lifetime} → Step s t → Capped s → Capped t
Step-Capped (accept s a h) c = omega arith
Step-Capped (reject s a h) c = c
Step-Capped (finish s b e) c = omega arith
Step-Capped (rebuild s b e) c = omega arith
Step-Capped (swap s before after id old e f) c =
    omega (arith, split_length s.holding before after id e)
Step-Capped (swap_nil s before after id e f) c =
    omega (arith, split_length s.holding before after id e)
Step-Capped (wipe s before after id e) c = omega (arith, split_length s.wiping before after id e)
Step-Capped (cancel s) c = c
Step-Capped (shutdown s id a e) c = c

Step-Placed : {s t : Lifetime} → Step s t → Placed s → Placed t
Step-Placed (accept s a h) p id = p id
Step-Placed (reject s a h) p id = p id
Step-Placed (finish s b e) p id = p id
Step-Placed (rebuild s b e) p id = ground (arith, p id)
Step-Placed (swap s before after new old e f) p id =
    ground (arith, p id, split_held id s.holding before after new e)
Step-Placed (swap_nil s before after new e f) p id =
    ground (arith, p id, split_held id s.holding before after new e)
Step-Placed (wipe s before after old e) p id =
    ground (arith, p id, split_held id s.wiping before after old e)
Step-Placed (cancel s) p id = p id
Step-Placed (shutdown s old a e) p id = ground (arith, p id)

Reach-Capped : {t : Lifetime} → Reach started t → Capped t
Reach-Capped here = omega arith
Reach-Capped (next r st) = Step-Capped st (Reach-Capped r)

-- However connections, reloads and the shutdown interleave, every resolver that was made is in
-- exactly one place: installed, held by one reload, about to be wiped by one, or wiped.
pub Reach-Placed : {t : Lifetime} → Reach started t → Placed t
Reach-Placed here id = ground arith
Reach-Placed (next r st) id = Step-Placed st (Reach-Placed r) id

current_length : (o : Option ℕ) → length (of_current o) ≤ 1
current_length none = omega arith
current_length (some id) = omega arith

-- The agent never serves more than 64 connections at a time, and never has more than 65 resolvers
-- that are not wiped, one of them installed and each other in the hands of a reload.
pub Reach_bounds :
    {t : Lifetime} → Reach started t → (in_flight t ≤ max_concurrent_agent_conns) × (live t ≤ 65)
Reach_bounds {t} r = let c = Reach-Capped r in (c, omega (arith, c, current_length t.current))
