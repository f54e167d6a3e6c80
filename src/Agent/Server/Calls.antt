-- ===== src/Agent/Server/Calls.antt =====
-- What a client gets through the connection.
use jitenv.Base.{
  Bool, true, not, Option, none, some, List, [], append-nil, if◌then◌else◌, Result, ok, err, ◌≡◌,
  ◌∙◌, sym, refl, ap, ◌<◌, Text, length, lookup, All,
}
use jitenv.Agent.Protocol.{
  Op, Request, Status, Response, Codec, framed_bytes, write_message, read_message,
}
use jitenv.Agent.Protocol.Framing.{read_message_body}
use jitenv.Agent.Server.{
  Process, Agent, dispatch, counted, scheduled, handle, CallError, refused_by_agent, call,
}

-- what the client makes of a response
abbrev pub as_result :
    (q : Codec Request) (s : Codec Response) → Response → Result (CallError q s) Response
as_result q s r = if not r.ok then err (refused_by_agent r.error) else ok r

-- The same response: its variables are a map, which has no order.
pub record SameResponse (r r' : Response) : Type 0 where
  pub ok : r'.ok ≡ r.ok
  pub error : r'.error ≡ r.error
  pub mapped : r'.mapped ≡ r.mapped
  pub env : (k : Text) → lookup k r'.env ≡ lookup k r.env
  pub status : r'.status ≡ r.status
  pub commands : r'.commands ≡ r.commands

abbrev pub op_name : Op → Text
op_name (Op.unknown name) = name
op_name _ = []

-- `valid` is utf8.ValidString: Marshal changes other texts.
module _ (valid : Text → Bool) where
  abbrev pub AllValid : List Text → Type 0
  AllValid = All (λ t. valid t ≡ true)

  pub record IsValidRequest (r : Request) : Type 0 where
    pub op : valid (op_name r.op) ≡ true
    pub path : valid r.path ≡ true
    pub cwd : valid r.cwd ≡ true
    pub command : valid r.command ≡ true

  pub record IsValidStatus (s : Status) : Type 0 where
    pub started_at : valid s.started_at ≡ true
    pub sources : AllValid s.sources
    pub idle_for : valid s.idle_for ≡ true

  pub record IsValidResponse (r : Response) : Type 0 where
    pub error : valid r.error ≡ true
    pub env : All (λ p. (valid p.0 ≡ true) × (valid p.1 ≡ true)) r.env
    pub status : (s : Status) → r.status ≡ some s → IsValidStatus s
    pub commands : AllValid r.commands

  -- What encoding/json documents: Unmarshal reads what Marshal wrote of valid texts, a map in any
  -- order, and Marshal never writes nothing.
  pub record WireLaws (requests : Codec Request) (responses : Codec Response) : Type 0 where
    pub request_back :
        (r : Request) (b : Text)
        → IsValidRequest r
        → requests.marshal r ≡ some b
        → requests.unmarshal b ≡ some r
    pub request_nonempty : (r : Request) (b : Text) → requests.marshal r ≡ some b → 0 < length b
    pub response_back :
        (r : Response) (b : Text)
        → IsValidResponse r
        → responses.marshal r ≡ some b
        → (r' : Response) × (responses.unmarshal b ≡ some r') × SameResponse r r'
    pub response_nonempty : (r : Response) (b : Text) → responses.marshal r ≡ some b → 0 < length b

-- a message that is the whole stream
read_all :
    {A : Type 0} (codec : Codec A) (v w : A) (m : Text)
    → write_message codec v ≡ ok m
    → ((b : Text) → codec.marshal v ≡ some b → 0 < length b × (codec.unmarshal b ≡ some w))
    → read_message codec m ≡ ok (w, [])
read_all codec v w m e h =
    ap (read_message codec) (sym (append-nil m)) ∙ read_message_body codec v w m [] e h

-- a response that fits in a message was marshalled
marshalled :
    {A : Type 0} (codec : Codec A) (v : A) (m : Text)
    → write_message codec v ≡ ok m
    → (b : Text) × (codec.marshal v ≡ some b)
unfolding write_message
marshalled codec v m e = of_option (codec.marshal v) e
  where
    of_option : (o : Option Text) → framed_bytes o ≡ ok m → (b : Text) × (o ≡ some b)
    of_option none h = absurd cc
    of_option (some b) h = (b, refl)

module _ (valid : Text → Bool) (requests : Codec Request) (responses : Codec Response)
    (laws : WireLaws valid requests responses) where
  -- A call of an authorised client gives it the response of `dispatch`, with its variables as a map,
  -- in any order, and a refusal as an error, if the texts of the request and of the response are
  -- valid UTF-8 and both fit in a message; the agent has counted the request, and is as
  -- `dispatch` leaves it, cancelled if the request was to lock.
  pub call-dispatch :
      (p : Process) (a : Agent) (req : Request) (m out : Text)
      → IsValidRequest valid req
      → IsValidResponse valid (dispatch p (counted p a) req).response
      → write_message requests req ≡ ok m
      → write_message responses (dispatch p (counted p a) req).response ≡ ok out
      → (r : Response) × SameResponse (dispatch p (counted p a) req).response r
        × (call requests responses p a true req ≡ (
          scheduled req.op (dispatch p (counted p a) req).agent,
          as_result requests responses r,
        ))
  unfolding call handle
  call-dispatch p a req m out v w e f =
      let d = dispatch p (counted p a) req in
      let (b, made) = marshalled responses d.response out f in
      let (r, read, alike) = laws.response_back d.response b w made in
      let same_bytes : (b' : Text) → responses.marshal d.response ≡ some b' → b ≡ b' = λ b' h. cc in
      (
        r,
        alike,
        rw (
          e,
          read_all requests req req m e
              (λ b' h. (laws.request_nonempty req b' h, laws.request_back req b' v h)),
          f,
          read_all responses d.response r out f (λ b' h. (
            laws.response_nonempty d.response b' h,
            ap responses.unmarshal (sym (same_bytes b' h)) ∙ read,
          )),
        ),
      )
