-- ===== src/Agent/Server.antt =====
-- internal/agent/server.go and client.go: one connection. `dispatch` answers a request, `handle` reads
-- and writes the messages of a connection, `call` is the client at its other end. How connections,
-- reloads and the shutdown interleave is in Agent/Server/Lifetime.
pub mod Lifetime
pub mod Calls
mod Tests
use jitenv.Base.{
  ℕ, ◌+◌, Bool, true, false, not, Option, none, some, List, [], ◌∷◌, ◌++◌, if◌then◌else◌, Result,
  ok, err, ◌>>=◌, Text, codes, Assoc, sort,
}
use jitenv.Config.Index.{Host}
use jitenv.Agent.Source.{Source}
use jitenv.Agent.Resolver.{
  ResolveError, Resolver, fetch_env, fetch_env_cwd, is_mapped, wrapped_commands,
}
use jitenv.Agent.Protocol.{
  Op, Request, Status, Response, Codec, MessageError, write_message, read_message,
}

-- What the process has beside its state: the host, the time, the callback of SetReload (`none` is
-- nil) with what it gives when it is called, the texts of errors, and the idle time's text.
pub record Process : Type 0 where
  pub host : Host
  pub pid : ℕ
  pub now : ℕ
  pub reload : Option (Result Text Resolver)
  pub say_fetch : ResolveError → Text
  pub say_read : MessageError → Text
  pub quote : Text → Text
  pub idle_text : ℕ → ℕ → Text

-- the fields of Agent that a request reads or changes
pub record Agent : Type 0 where
  pub started_at : Text
  pub hits : ℕ
  pub last_seen : ℕ
  pub resolver : Option Resolver
  pub cancelled : Bool

-- the zero Response
abbrev pub no_response : Response
no_response = record {
  ok = false;
  error = [];
  mapped = false;
  env = [];
  status = none;
  commands = [];
}

abbrev pub failure : Text → Response
failure e = record no_response { error = e }

abbrev pub success : Response
success = record no_response { ok = true }

pub source_names : Assoc Source → List Text
source_names [] = []
source_names ((name, s) ∷ rest) = name ∷ source_names rest

-- Sources of the resolver; a nil resolver has none
abbrev pub sources_of : Option Resolver → List Text
sources_of none = []
sources_of (some r) = sort (source_names r.sources)

abbrev pub env_response : (ResolveError → Text) → Result ResolveError (Assoc Text) → Response
env_response say (ok env) = record success { env = env }
env_response say (err e) = failure (say e)

abbrev pub mapped_response : Process → Text → Option Resolver → Response
mapped_response p path none = success
mapped_response p path (some r) = record success { mapped = is_mapped p.host r path }

abbrev pub fetch_response : Process → Text → Option Resolver → Response
fetch_response p path none = success
fetch_response p path (some r) = env_response p.say_fetch (fetch_env p.host r path)

abbrev pub cwd_response : Process → Text → Text → Option Resolver → Response
cwd_response p cwd command none = success
cwd_response p cwd command (some r) = env_response p.say_fetch (fetch_env_cwd p.host r cwd command)

abbrev pub commands_response : Process → Text → Option Resolver → Response
commands_response p cwd none = success
commands_response p cwd (some r) = record success { commands = wrapped_commands p.host r cwd }

-- The agent afterwards, the response, and the resolver that was wiped.
pub record Dispatched : Type 0 where
  pub agent : Agent
  pub response : Response
  pub wiped : Option Resolver

abbrev pub answered : Agent → Response → Dispatched
answered a r = record { agent = a; response = r; wiped = none }

-- OpReload: the swap, then the wipe of the outgoing resolver
abbrev pub reloaded : Agent → Option (Result Text Resolver) → Dispatched
reloaded a none = answered a (failure (codes "reload not supported"))
reloaded a (some (err e)) = answered a (failure e)
reloaded a (some (ok next)) = record {
  agent = record a { resolver = some next };
  response = success;
  wiped = a.resolver;
}

abbrev pub status_response : Process → Agent → Response
status_response p a = record success {
  status = some (record {
    pid = p.pid;
    started_at = a.started_at;
    sources = sources_of a.resolver;
    hits = a.hits;
    idle_for = p.idle_text a.last_seen p.now;
  });
}

abbrev pub dispatch_op : Process → Agent → Request → Op → Dispatched
dispatch_op p a req Op.status = answered a (status_response p a)
dispatch_op p a req Op.lock = answered a success
dispatch_op p a req Op.is_mapped = answered a (mapped_response p req.path a.resolver)
dispatch_op p a req Op.fetch_env = answered a (fetch_response p req.path a.resolver)
dispatch_op p a req Op.fetch_env_cwd = answered a (cwd_response p req.cwd req.command a.resolver)
dispatch_op p a req Op.cwd_commands = answered a (commands_response p req.cwd a.resolver)
dispatch_op p a req Op.reload = reloaded a p.reload
dispatch_op p a req (Op.unknown name) = answered a (failure (codes "unknown op " ++ p.quote name))

unfoldable pub dispatch : Process → Agent → Request → Dispatched
dispatch p a req = dispatch_op p a req req.op

-- hits.Add and lastSeen.Store
abbrev pub counted : Process → Agent → Agent
counted p a = record a { hits = a.hits + 1; last_seen = p.now }

-- OpLock schedules the cancellation once the response is written.
abbrev pub scheduled : Op → Agent → Agent
scheduled Op.lock a = record a { cancelled = true }
scheduled op a = a

-- the bytes that `_ = WriteMessage` leaves on the wire
abbrev pub on_wire : Result MessageError Text → Text
on_wire (ok m) = m
on_wire (err e) = []

module _ (requests : Codec Request) (responses : Codec Response) where
  abbrev pub serve_read : Process → Agent → Result MessageError (Request × Text) → Agent × Text
  serve_read p a (err e) = (a, on_wire (write_message responses (failure (p.say_read e))))
  serve_read p a (ok (req, rest)) =
      let d = dispatch p (counted p a) req in
      (scheduled req.op d.agent, on_wire (write_message responses d.response))

  -- `handle`, with the outcome of the check of the peer, on the bytes that the client sends
  unfoldable pub handle : Process → Agent → Bool → Text → Agent × Text
  handle p a authorized input =
      if not authorized
      then (a, on_wire (write_message responses (failure (codes "unauthorized"))))
      else serve_read p a (read_message requests input)

  pub data CallError : Type 0 where
    not_sent not_received : MessageError → CallError
    refused_by_agent : Text → CallError

  abbrev pub received : Result MessageError (Response × Text) → Result CallError Response
  received (err e) = err (not_received e)
  received (ok (r, rest)) = if not r.ok then err (refused_by_agent r.error) else ok r

  abbrev pub sent :
      Process → Agent → Bool → Result MessageError Text → Agent × Result CallError Response
  sent p a authorized (err e) = (a, err (not_sent e))
  sent p a authorized (ok m) =
      let (a', out) = handle p a authorized m in (a', received (read_message responses out))

  -- `call` of the client, with the agent at the other end of the connection
  unfoldable pub call : Process → Agent → Bool → Request → Agent × Result CallError Response
  call p a authorized req = sent p a authorized (write_message requests req)
