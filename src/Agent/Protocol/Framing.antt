-- ===== src/Agent/Protocol/Framing.antt =====
-- Messages are read back, and reading is bounded.
use jitenv.Base.{
  ℕ, zero, suc, ◌+◌, ◌/◌, ◌%◌, ◌≤◌, ◌<◌, Option, none, some, [], ◌∷◌, ◌++◌, ok, ◌≡◌, refl, ap,
  arith, Text, length, take, drop, length-append,
}
use jitenv.Agent.Protocol.{
  Codec, CodecLaws, max_message_bytes, put_uint32, uint32, framed_bytes, decoded, write_message,
  read_body, read_message,
}

take-length : (xs ys : Text) → take (length xs) (xs ++ ys) ≡ xs
take-length [] ys = refl
take-length (x ∷ xs) ys = ap (λ t. x ∷ t) (take-length xs ys)

drop-length : (xs ys : Text) → drop (length xs) (xs ++ ys) ≡ ys
drop-length [] ys = refl
drop-length (x ∷ xs) ys = drop-length xs ys

-- at most `n` bytes are dropped
length-drop : (n : ℕ) (s : Text) → length s ≤ length (drop n s) + n
length-drop zero s = omega arith
length-drop (suc n) [] = omega arith
length-drop (suc n) (x ∷ s) = omega (arith, length-drop n s)

module _ {A : Type 0} (codec : Codec A) where
  framed-parts :
      (o : Option Text) (m : Text)
      → framed_bytes o ≡ ok m
      → (b : Text) × (o ≡ some b)
        × (length b ≤ max_message_bytes)
        × (m ≡ put_uint32 (length b) ++ b)
  framed-parts none m e = absurd cc
  framed-parts (some b) m e = (b, refl, ground arith, ground arith)

  body-append :
      (b rest : Text) (v : A)
      → 0 < length b
      → length b ≤ max_message_bytes
      → codec.unmarshal b ≡ some v
      → read_body codec (length b) (b ++ rest) ≡ ok (v, rest)
  body-append b rest v pos small u =
      rw (take-length b rest, drop-length b rest, u) (ground (arith, length-append b rest))

  uint32-put :
      (n : ℕ)
      → n ≤ max_message_bytes
      → uint32 (n / 16777216 % 256) (n / 65536 % 256) (n / 256 % 256) (n % 256) ≡ n
  uint32-put n h = omega arith

  -- what is read of a message is what the codec reads in its body
  pub read_message_body :
      (v w : A) (m rest : Text)
      → write_message codec v ≡ ok m
      → ((b : Text) → codec.marshal v ≡ some b → 0 < length b × (codec.unmarshal b ≡ some w))
      → read_message codec (m ++ rest) ≡ ok (w, rest)
  unfolding write_message read_message
  read_message_body v w m rest e h =
      let (b, mb, small, made) = framed-parts (codec.marshal v) m e in
      let (pos, u) = h b mb in
      rw (made, uint32-put (length b) small) (body-append b rest w pos small u)

  -- A message that WriteMessage wrote is read by ReadMessage as the value, whatever follows it in
  -- the stream, and what follows is left there.
  pub read_message-write_message :
      (laws : CodecLaws codec) (v : A) (m rest : Text)
      → write_message codec v ≡ ok m
      → read_message codec (m ++ rest) ≡ ok (v, rest)
  read_message-write_message laws v m rest e =
      read_message_body v v m rest e λ b mb. (laws.nonempty v b mb, laws.unmarshal-marshal v b mb)

  decoded_rest :
      (o : Option A) (s : Text) (v : A) (rest : Text) → decoded o s ≡ ok (v, rest) → s ≡ rest
  decoded_rest none s v rest e = absurd cc
  decoded_rest (some a) s v rest e = cc

  body-bounded :
      (n : ℕ) (s : Text) (v : A) (rest : Text)
      → read_body codec n s ≡ ok (v, rest)
      → length s ≤ length rest + max_message_bytes
  body-bounded n s v rest e =
      ground (arith, decoded_rest (codec.unmarshal (take n s)) (drop n s) v rest, length-drop n s)

  -- ReadMessage takes at most four bytes and a mebibyte from the stream for a message, whatever its
  -- header says.
  pub read_message_bounds :
      (s : Text) (v : A) (rest : Text)
      → read_message codec s ≡ ok (v, rest)
      → length s ≤ length rest + 4 + max_message_bytes
  unfolding read_message
  read_message_bounds (a ∷ b ∷ c ∷ d ∷ s) v rest e =
      omega (arith, body-bounded (uint32 a b c d) s v rest e)
  read_message_bounds (a ∷ b ∷ c ∷ []) v rest e = absurd cc
  read_message_bounds (a ∷ b ∷ []) v rest e = absurd cc
  read_message_bounds (a ∷ []) v rest e = absurd cc
  read_message_bounds [] v rest e = absurd cc
