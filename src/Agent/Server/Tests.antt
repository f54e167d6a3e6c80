-- ===== src/Agent/Server/Tests.antt =====
-- Small codecs, runs of a call and of the life of an agent, and the theorems at concrete inputs.
use jitenv.Base.{
  ℕ, zero, suc, ◌≤◌, ◌<◌, same, same_iff, not, any, ltb, leb, if◌then◌else◌, Bool-cases, inl, inr,
  sym, subst, lookup, insert, Bool, true, false, Option, none, some, List, [], ◌∷◌, ◌++◌, ok, ◌≡◌,
  refl, ap, arith, Text, codes, Assoc, length,
}
use jitenv.Agent.Protocol.{
  Op, Request, Status, Response, Codec, CodecLaws, write_message, read_message,
}
use jitenv.Agent.Protocol.Framing.{read_message-write_message}
use jitenv.Agent.Resolver.{Resolver, fetch_env, fetch_vars, fetch_var}
use jitenv.Config.{VarRef}
use jitenv.Config.Index.{lookup_path, glob_vars}
use jitenv.Paths.{abs}
use jitenv.Agent.Server.{Process, Agent, counted, dispatch, scheduled, call}
use jitenv.Agent.Server.Calls.{
  as_result, SameResponse, IsValidRequest, IsValidResponse, WireLaws, call-dispatch,
}
use jitenv.Agent.Server.Lifetime.{
  Lifetime, in_flight, max_concurrent_agent_conns, started, accept, rebuild, swap, cancel, Reach,
  here, next,
}
use jitenv.Agent.Server.Lifetime.Safety.{Placed, live, Reach-Placed, Reach_bounds}

-- requests for the variables of a path, in which nothing else is set
abbrev request_bytes : Op → Text → Text → Text → Option Text
request_bytes Op.fetch_env path [] [] = some (1 ∷ path)
request_bytes op path cwd command = none

abbrev request_of : Text → Option Request
request_of (suc zero ∷ path) =
    some (record { op = Op.fetch_env; path = path; cwd = []; command = [] })
request_of _ = none

request_law :
    (op : Op) (path cwd command b : Text)
    → request_bytes op path cwd command ≡ some b
    → (request_of b ≡ some (record { op = op; path = path; cwd = cwd; command = command }))
      × (0 < length b)
request_law Op.fetch_env path [] [] b e = let s : 1 ∷ path ≡ b = cc in rw (← s) (refl, omega arith)
request_law Op.fetch_env path [] (c ∷ command) b e = absurd cc
request_law Op.fetch_env path (c ∷ cwd) command b e = absurd cc
request_law Op.status path cwd command b e = absurd cc
request_law Op.is_mapped path cwd command b e = absurd cc
request_law Op.lock path cwd command b e = absurd cc
request_law Op.reload path cwd command b e = absurd cc
request_law Op.fetch_env_cwd path cwd command b e = absurd cc
request_law Op.cwd_commands path cwd command b e = absurd cc
request_law (Op.unknown name) path cwd command b e = absurd cc

abbrev requests : Codec Request
requests = record {
  marshal = λ r. request_bytes r.op r.path r.cwd r.command;
  unmarshal = request_of;
}

requests_laws : CodecLaws requests
requests_laws = record {
  unmarshal-marshal = λ r b e. (request_law r.op r.path r.cwd r.command b e).0;
  nonempty = λ r b e. (request_law r.op r.path r.cwd r.command b e).1;
}

-- the texts of ASCII
abbrev valid : Text → Bool
valid t = not (any (λ c. leb 128 c) t)

-- responses with two variables, whose names and values are one character, and nothing else; as in
-- encoding/json, the names are sorted
abbrev env_bytes : Assoc Text → Option Text
env_bytes ((k ∷ [], v ∷ []) ∷ (l ∷ [], w ∷ []) ∷ []) =
    if ltb k l
    then some (2 ∷ k ∷ v ∷ l ∷ w ∷ [])
    else if ltb l k
    then some (2 ∷ l ∷ w ∷ k ∷ v ∷ [])
    else none
env_bytes _ = none

abbrev response_bytes : Bool → Bool → Text → Assoc Text → Option Status → List Text → Option Text
response_bytes true false [] env none [] = env_bytes env
response_bytes _ _ _ _ _ _ = none

abbrev with_env : Assoc Text → Response
with_env env = record {
  ok = true;
  error = [];
  mapped = false;
  env = env;
  status = none;
  commands = [];
}

abbrev pair : ℕ → ℕ → ℕ → ℕ → Assoc Text
pair k v l w = (k ∷ [], v ∷ []) ∷ (l ∷ [], w ∷ []) ∷ []

abbrev response_of : Text → Option Response
response_of (suc (suc zero) ∷ k ∷ v ∷ l ∷ w ∷ []) = some (with_env (pair k v l w))
response_of _ = none

-- what is read of the bytes: the same variables, and there are bytes
abbrev ReadBack : Assoc Text → Text → Type 0
ReadBack env b =
    ((env' : Assoc Text) × (response_of b ≡ some (with_env env'))
      × ((x : Text) → lookup x env' ≡ lookup x env))
    × (0 < length b)

swapped_pair :
    (k v l w : ℕ) (x : Text) → ltb l k ≡ true → lookup x (pair l w k v) ≡ lookup x (pair k v l w)
unfolding lookup
swapped_pair k v l w x h = ground (arith, same_iff (k ∷ []) x, same_iff (l ∷ []) x)

env_law : (env : Assoc Text) (b : Text) → env_bytes env ≡ some b → ReadBack env b
env_law ((k ∷ [], v ∷ []) ∷ (l ∷ [], w ∷ []) ∷ []) b e = elim (Bool-cases (ltb k l)) [
  | inl a ↦
      let one : some (2 ∷ k ∷ v ∷ l ∷ w ∷ []) ≡ some b = rw a at e in
      let s : 2 ∷ k ∷ v ∷ l ∷ w ∷ [] ≡ b = cc in
      rw (← s) ((pair k v l w, refl, λ x. refl), omega arith)
  | inr a ↦ elim (Bool-cases (ltb l k)) [
    | inl c ↦
        let one : some (2 ∷ l ∷ w ∷ k ∷ v ∷ []) ≡ some b = rw (a, c) at e in
        let s : 2 ∷ l ∷ w ∷ k ∷ v ∷ [] ≡ b = cc in
        rw (← s) ((pair l w k v, refl, λ x. swapped_pair k v l w x c), omega arith)
    | inr c ↦ let no : none ≡ some b = rw (a, c) at e in absurd cc
  ]
]
env_law _ b e = absurd cc

response_law :
    (good mapped : Bool) (error : Text) (env : Assoc Text) (status : Option Status)
    (commands : List Text) (b : Text)
    → response_bytes good mapped error env status commands ≡ some b
    → ((r : Response) × (response_of b ≡ some r)
        × SameResponse
            (record {
              ok = good;
              error = error;
              mapped = mapped;
              env = env;
              status = status;
              commands = commands;
            })
            r)
      × (0 < length b)
response_law true false [] env none [] b e =
    let ((env', read, alike), pos) = env_law env b e in
    (
      (
        with_env env',
        read,
        record {
          ok = refl;
          error = refl;
          mapped = refl;
          env = alike;
          status = refl;
          commands = refl;
        },
      ),
      pos,
    )
response_law _ _ _ _ _ _ b e = absurd cc

abbrev responses : Codec Response
responses = record {
  marshal = λ r. response_bytes r.ok r.mapped r.error r.env r.status r.commands;
  unmarshal = response_of;
}

wire_laws : WireLaws valid requests responses
wire_laws = record {
  request_back = λ r b v e. (request_law r.op r.path r.cwd r.command b e).0;
  request_nonempty = λ r b e. (request_law r.op r.path r.cwd r.command b e).1;
  response_back = λ r b v e. (response_law r.ok r.mapped r.error r.env r.status r.commands b e).0;
  response_nonempty = λ r b e. (response_law r.ok r.mapped r.error r.env r.status r.commands b e).1;
}

abbrev request : Request
request = record { op = Op.fetch_env; path = codes "/x"; cwd = []; command = [] }

-- the message of the request
abbrev message : Text
message = 0 ∷ 0 ∷ 0 ∷ 3 ∷ 1 ∷ codes "/x"

written : write_message requests request ≡ ok message
unfolding write_message
written = refl

read_message-write_message_example :
    read_message requests (message ++ 9 ∷ []) ≡ ok (request, 9 ∷ [])
read_message-write_message_example =
    read_message-write_message requests requests_laws request message (9 ∷ []) written

abbrev variable : Text → Text → VarRef
variable name value = record {
  name = name;
  source = [];
  ref = [];
  key = [];
  extra = [];
  value = value;
}

abbrev variable_list : List VarRef
variable_list = variable (codes "B") (codes "2") ∷ variable (codes "A") (codes "1") ∷ []

abbrev resolver : Resolver
resolver = record {
  index = record { exact = (codes "/x", variable_list) ∷ []; globs = []; cwd_globs = [] };
  sources = [];
}

abbrev process : Process
process = record {
  host = record { home = none; wd = some (codes "/w"); glob_match = λ p s. some (same p s) };
  pid = 1;
  now = 2;
  reload = none;
  say_fetch = λ e. [];
  say_read = λ e. [];
  quote = λ t. t;
  idle_text = λ a b. [];
}

abbrev agent : Agent
agent = record {
  started_at = [];
  hits = 0;
  last_seen = 0;
  resolver = some resolver;
  cancelled = false;
}

abbrev variables : Assoc Text
variables = (codes "B", codes "2") ∷ (codes "A", codes "1") ∷ []

dispatched : (dispatch process (counted process agent) request).response ≡ with_env variables
unfolding dispatch fetch_env lookup_path glob_vars lookup same abs fetch_vars fetch_var insert
dispatched = refl

-- the variables in the order of their names
abbrev out : Text
out = 0 ∷ 0 ∷ 0 ∷ 5 ∷ 2 ∷ codes "A1B2"

answer :
    write_message responses (dispatch process (counted process agent) request).response ≡ ok out
unfolding write_message
answer = ap (write_message responses) dispatched

request-IsValidRequest : IsValidRequest valid request
request-IsValidRequest = record { op = refl; path = refl; cwd = refl; command = refl }

env-IsValidResponse : IsValidResponse valid (with_env variables)
env-IsValidResponse = record {
  error = refl;
  env = ((refl, refl), ((refl, refl), tt));
  status = λ s e. absurd cc;
  commands = tt;
}

response-IsValidResponse :
    IsValidResponse valid (dispatch process (counted process agent) request).response
response-IsValidResponse = subst (IsValidResponse valid) (sym dispatched) env-IsValidResponse

call-dispatch_example :
    (r : Response) × SameResponse (dispatch process (counted process agent) request).response r
    × (call requests responses process agent true request ≡ (
      scheduled Op.fetch_env (dispatch process (counted process agent) request).agent,
      as_result requests responses r,
    ))
call-dispatch_example =
    call-dispatch valid requests responses wire_laws process agent request message out
      request-IsValidRequest response-IsValidResponse written answer

-- a reload that swaps while the shutdown is under way
abbrev reloading : Lifetime
reloading = record {
  accepting = true;
  busy = 0;
  holding = 1 ∷ [];
  wiping = [];
  current = some 0;
  wiped = [];
  made = 2;
}

abbrev rebuilt : Reach started reloading
rebuilt = next (next here (accept started refl (omega arith))) (rebuild _ 0 refl)

abbrev swapped : Lifetime
swapped = record reloading { accepting = false; holding = []; current = some 1; wiping = 0 ∷ [] }

abbrev run_swapped : Reach started swapped
run_swapped = next (next rebuilt (swap reloading [] [] 1 0 refl refl)) (cancel _)

Reach-Placed_example : Placed swapped
Reach-Placed_example = Reach-Placed run_swapped

Reach_bounds_example : (in_flight swapped ≤ max_concurrent_agent_conns) × (live swapped ≤ 65)
Reach_bounds_example = Reach_bounds run_swapped
