-- ===== src/Agent/Protocol.antt =====
-- internal/agent/protocol.go: requests and responses, and their framing by a length of four bytes. The
-- bytes of a value are those of encoding/json, a `Codec`; a stream is the list of its bytes.
pub mod Framing
use jitenv.Base.{
  ℕ, ◌+◌, ◌*◌, ◌/◌, ◌%◌, ◌^◌, ◌≤◌, ◌<◌, Bool, Option, none, some, List, [], ◌∷◌, ◌++◌,
  if◌then◌else◌, ltb, ◌≡◌, ◌==◌, Result, ok, err, ◌>>=◌, Text, Assoc, length, take, drop,
}

pub data Op : Type 0 where
  status is_mapped fetch_env lock reload fetch_env_cwd cwd_commands : Op
  unknown : Text → Op

pub record Request : Type 0 where
  pub op : Op
  pub path : Text
  pub cwd : Text
  pub command : Text

pub record Status : Type 0 where
  pub pid : ℕ
  pub started_at : Text
  pub sources : List Text
  pub hits : ℕ
  pub idle_for : Text

pub record Response : Type 0 where
  pub ok : Bool
  pub error : Text
  pub mapped : Bool
  pub env : Assoc Text
  pub status : Option Status
  pub commands : List Text

-- json.Marshal and json.Unmarshal at a type; `none` is an error
pub record Codec (A : Type 0) : Type 0 where
  pub marshal : A → Option Text
  pub unmarshal : Text → Option A

-- What the package documents: Unmarshal reads what Marshal wrote, which is never empty.
pub record CodecLaws {A : Type 0} (codec : Codec A) : Type 0 where
  pub unmarshal-marshal : (a : A) (b : Text) → codec.marshal a ≡ some b → codec.unmarshal b ≡ some a
  pub nonempty : (a : A) (b : Text) → codec.marshal a ≡ some b → 0 < length b

pub data MessageError : Type 0 where
  not_marshalled not_unmarshalled end_of_stream empty_message : MessageError
  too_large : ℕ → MessageError

abbrev pub max_message_bytes : ℕ
max_message_bytes = 1048576

-- binary.BigEndian.PutUint32 of uint32(n)
abbrev pub put_uint32 : ℕ → Text
put_uint32 n = (n / 16777216 % 256) ∷ (n / 65536 % 256) ∷ (n / 256 % 256) ∷ (n % 256) ∷ []

-- binary.BigEndian.Uint32
abbrev pub uint32 : ℕ → ℕ → ℕ → ℕ → ℕ
uint32 a b c d = a * 16777216 + b * 65536 + c * 256 + d

-- The bytes that are written, for the result of Marshal.
abbrev pub framed_bytes : Option Text → Result MessageError Text
framed_bytes none = err not_marshalled
framed_bytes (some b) =
    if ltb max_message_bytes (length b)
    then err (too_large (length b))
    else ok (put_uint32 (length b) ++ b)

abbrev pub decoded : {A : Type 0} → Option A → Text → Result MessageError (A × Text)
decoded none rest = err not_unmarshalled
decoded (some a) rest = ok (a, rest)

module _ {A : Type 0} (codec : Codec A) where
  -- WriteMessage, on a writer that takes every byte
  unfoldable pub write_message : A → Result MessageError Text
  write_message v = framed_bytes (codec.marshal v)

  -- the body of a message whose header says `n`, from the stream behind the header
  abbrev pub read_body : ℕ → Text → Result MessageError (A × Text)
  read_body n s =
      if n == 0
      then err empty_message
      else if ltb max_message_bytes n
      then err (too_large n)
      else if ltb (length s) n
      then err end_of_stream
      else decoded (codec.unmarshal (take n s)) (drop n s)

  -- ReadMessage: the value, and what is left of the stream
  unfoldable pub read_message : Text → Result MessageError (A × Text)
  read_message (a ∷ b ∷ c ∷ d ∷ s) = read_body (uint32 a b c d) s
  read_message _ = err end_of_stream
