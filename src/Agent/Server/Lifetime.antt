-- ===== src/Agent/Server/Lifetime.antt =====
-- internal/agent/server.go: the accept loop of Serve with its semaphore, the reloads of its handlers and
-- Shutdown, as steps that interleave. A resolver is the number by which it was made.
pub mod Safety
use jitenv.Base.{
  ℕ, zero, suc, ◌+◌, ◌≤◌, ◌<◌, Bool, true, false, Option, none, some, List, [], ◌∷◌, ◌++◌, ◌≡◌,
  length,
}

-- `maxConcurrentAgentConns`
abbrev pub max_concurrent_agent_conns : ℕ
max_concurrent_agent_conns = 64

pub record Lifetime : Type 0 where
  pub accepting : Bool
  -- handlers with a slot of the semaphore that are not between the lines of a reload
  pub busy : ℕ
  -- the resolver of each handler whose callback has returned and that has not swapped yet
  pub holding : List ℕ
  -- the outgoing resolver of each handler that has swapped and not wiped yet
  pub wiping : List ℕ
  pub current : Option ℕ
  pub wiped : List ℕ
  pub made : ℕ

-- The handlers that run: the slots that are taken.
abbrev pub in_flight : Lifetime → ℕ
in_flight s = s.busy + length s.holding + length s.wiping

-- the agent as NewAgent and Listen leave it, with its first resolver
abbrev pub started : Lifetime
started = record {
  accepting = true;
  busy = 0;
  holding = [];
  wiping = [];
  current = some 0;
  wiped = [];
  made = 1;
}

pub data Step : Lifetime → Lifetime → Type 0 where
  -- Accept with a free slot; without one the connection is closed
  accept :
      (s : Lifetime)
      → s.accepting ≡ true
      → in_flight s < max_concurrent_agent_conns
      → Step s (record s { busy = s.busy + 1 })
  reject : (s : Lifetime) → s.accepting ≡ true → max_concurrent_agent_conns ≤ in_flight s → Step s s
  -- a handler returns, be it after a reload whose callback failed
  finish : (s : Lifetime) (b : ℕ) → s.busy ≡ suc b → Step s (record s { busy = b })
  -- OpReload: the callback returns a new resolver
  rebuild :
      (s : Lifetime) (b : ℕ)
      → s.busy ≡ suc b
      → Step s (record s { busy = b; holding = s.made ∷ s.holding; made = s.made + 1 })
  -- OpReload: the swap, under the lock
  swap :
      (s : Lifetime) (before after : List ℕ) (id old : ℕ)
      → s.holding ≡ before ++ (id ∷ after)
      → s.current ≡ some old
      → Step s (record s { holding = before ++ after; current = some id; wiping = old ∷ s.wiping })
  -- the same where Shutdown has taken the resolver, so that nothing is wiped
  swap_nil :
      (s : Lifetime) (before after : List ℕ) (id : ℕ)
      → s.holding ≡ before ++ (id ∷ after)
      → s.current ≡ none
      → Step s (record s { holding = before ++ after; current = some id; busy = s.busy + 1 })
  -- OpReload: the outgoing resolver is wiped
  wipe :
      (s : Lifetime) (before after : List ℕ) (id : ℕ)
      → s.wiping ≡ before ++ (id ∷ after)
      → Step s (record s { wiping = before ++ after; wiped = id ∷ s.wiped; busy = s.busy + 1 })
  -- the context is cancelled, and the listener closed
  cancel : (s : Lifetime) → Step s (record s { accepting = false })
  -- Shutdown, after the drain or its timeout: the resolver is wiped and dropped, under the lock
  shutdown :
      (s : Lifetime) (id : ℕ)
      → s.accepting ≡ false
      → s.current ≡ some id
      → Step s (record s { current = none; wiped = id ∷ s.wiped })

pub data Reach (s : Lifetime) : Lifetime → Type 0 where
  here : Reach s s
  next : {t u : Lifetime} → Reach s t → Step t u → Reach s u
