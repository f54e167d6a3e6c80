-- ===== src/Crypto/Base64.antt =====
-- base64.StdEncoding of the Go library: EncodeToString and DecodeString, which skips line breaks.
use jitenv.Base.{
  ℕ, ◌+◌, ◌-◌, ◌*◌, ◌/◌, ◌%◌, ◌<◌, false, not, ◌&&◌, ◌||◌, Option, none, some, [], ◌∷◌, ltb, leb,
  ◌==◌, if◌then◌else◌, ◌≡◌, refl, arith, Text, All, is_empty,
}

-- the alphabet
unfoldable pub sextet_char : ℕ → ℕ
sextet_char v =
    if ltb v 26
    then b'A' + v
    else if ltb v 52
    then b'a' + (v - 26)
    else if ltb v 62
    then b'0' + (v - 52)
    else if v == 62
    then b'+'
    else b'/'

pub char_sextet : ℕ → Option ℕ
char_sextet c =
    if leb b'A' c && leb c b'Z'
    then some (c - b'A')
    else if leb b'a' c && leb c b'z'
    then some (c - b'a' + 26)
    else if leb b'0' c && leb c b'9'
    then some (c - b'0' + 52)
    else if c == b'+'
    then some 62
    else if c == b'/'
    then some 63
    else none

abbrev pub padding : ℕ
padding = b'='

unfoldable pub encode : Text → Text
encode [] = []
encode (a ∷ []) = sextet_char (a / 4) ∷ sextet_char (a % 4 * 16) ∷ padding ∷ padding ∷ []
encode (a ∷ b ∷ []) =
    sextet_char (a / 4)
    ∷ sextet_char (a % 4 * 16 + b / 16)
    ∷ sextet_char (b % 16 * 4)
    ∷ padding
    ∷ []
encode (a ∷ b ∷ c ∷ rest) =
    sextet_char (a / 4)
    ∷ sextet_char (a % 4 * 16 + b / 16)
    ∷ sextet_char (b % 16 * 4 + c / 64)
    ∷ sextet_char (c % 64)
    ∷ encode rest

abbrev one_byte : Option ℕ → Option ℕ → Option Text
one_byte (some u) (some v) = some ((u * 4 + v / 16) ∷ [])
one_byte _ _ = none

abbrev two_bytes : Option ℕ → Option ℕ → Option ℕ → Option Text
two_bytes (some u) (some v) (some w) = some ((u * 4 + v / 16) ∷ (v % 16 * 16 + w / 4) ∷ [])
two_bytes _ _ _ = none

abbrev three_bytes : Option ℕ → Option ℕ → Option ℕ → Option ℕ → Option Text → Option Text
three_bytes (some u) (some v) (some w) (some x) (some rest) =
    some ((u * 4 + v / 16) ∷ (v % 16 * 16 + w / 4) ∷ (w % 4 * 64 + x) ∷ rest)
three_bytes _ _ _ _ _ = none

-- groups of four, the last of which may be padded
pub decode_groups : Text → Option Text
decode_groups [] = some []
decode_groups (p ∷ q ∷ r ∷ s ∷ rest) =
    let more = decode_groups rest in
    if s == padding
    then (if not (is_empty rest)
        then none
        else if r == padding
        then one_byte (char_sextet p) (char_sextet q)
        else two_bytes (char_sextet p) (char_sextet q) (char_sextet r))
    else three_bytes (char_sextet p) (char_sextet q) (char_sextet r) (char_sextet s) more
decode_groups _ = none

pub skip_breaks : Text → Text
skip_breaks [] = []
skip_breaks (c ∷ cs) = if c == 13 || c == b'\n' then skip_breaks cs else c ∷ skip_breaks cs

unfoldable pub decode : Text → Option Text
unfolding decode_groups skip_breaks char_sextet
decode s = decode_groups (skip_breaks s)

char-sextet : (v : ℕ) → v < 64 → char_sextet (sextet_char v) ≡ some v
unfolding char_sextet sextet_char
char-sextet v h = ground arith

sextet-plain :
    (v : ℕ)
    → v < 64
    → ((sextet_char v == padding) ≡ false)
      × ((sextet_char v == 13 || sextet_char v == b'\n') ≡ false)
unfolding sextet_char
sextet-plain v h = ground arith

skip-encode : (xs : Text) → All (λ b. b < 256) xs → skip_breaks (encode xs) ≡ encode xs
unfolding skip_breaks encode
skip-encode [] h = refl
skip-encode (a ∷ []) h =
    rw ((sextet-plain (a / 4) (omega arith)).1, (sextet-plain (a % 4 * 16) (omega arith)).1)
skip-encode (a ∷ b ∷ []) h = rw (
  (sextet-plain (a / 4) (omega arith)).1,
  (sextet-plain (a % 4 * 16 + b / 16) (omega arith)).1,
  (sextet-plain (b % 16 * 4) (omega arith)).1,
)
skip-encode (a ∷ b ∷ c ∷ rest) h = rw (
  (sextet-plain (a / 4) (omega arith)).1,
  (sextet-plain (a % 4 * 16 + b / 16) (omega arith)).1,
  (sextet-plain (b % 16 * 4 + c / 64) (omega arith)).1,
  (sextet-plain (c % 64) (omega arith)).1,
  skip-encode rest (h.1.1.1),
)

decode-encode_groups : (xs : Text) → All (λ b. b < 256) xs → decode_groups (encode xs) ≡ some xs
unfolding decode_groups encode
decode-encode_groups [] h = refl
decode-encode_groups (a ∷ []) h =
    rw (char-sextet (a / 4) (omega arith), char-sextet (a % 4 * 16) (omega arith)) (ground arith)
decode-encode_groups (a ∷ b ∷ []) h =
    rw
      (
        (sextet-plain (b % 16 * 4) (omega arith)).0,
        char-sextet (a / 4) (omega arith),
        char-sextet (a % 4 * 16 + b / 16) (omega arith),
        char-sextet (b % 16 * 4) (omega arith),
      )
      (ground arith)
decode-encode_groups (a ∷ b ∷ c ∷ rest) h =
    rw
      (
        (sextet-plain (c % 64) (omega arith)).0,
        char-sextet (a / 4) (omega arith),
        char-sextet (a % 4 * 16 + b / 16) (omega arith),
        char-sextet (b % 16 * 4 + c / 64) (omega arith),
        char-sextet (c % 64) (omega arith),
        decode-encode_groups rest h.1.1.1,
      )
      (ground arith)

-- Decoding inverts encoding, on bytes.
pub decode-encode : (xs : Text) → All (λ b. b < 256) xs → decode (encode xs) ≡ some xs
unfolding decode
decode-encode xs h = rw (skip-encode xs h) (decode-encode_groups xs h)
