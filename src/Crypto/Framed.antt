-- ===== src/Crypto/Framed.antt =====
-- A cipher that meets the laws, for the tests: frames that are plainly read back.
use jitenv.Base.{
  ℕ, zero, suc, ◌+◌, ◌<◌, Option, none, some, [], ◌∷◌, ◌++◌, ◌==◌, if◌then◌else◌, ◌≡◌, ◌∙◌, inl,
  inr, refl, sym, ap, arith, Text, Option-cases, drop, All, All-append,
}
use native.Mathlib.Nat.{add-zero}
use jitenv.Crypto.Aead.{Cipher, CipherLaws}

-- Numbers as ones with a zero behind: bytes, whatever the numbers.
unary : ℕ → Text → Text
unary zero rest = 0 ∷ rest
unary (suc n) rest = 1 ∷ unary n rest

unfoldable pub frame : Text → Text → Text
unfolding unary
frame [] rest = 0 ∷ rest
frame (c ∷ s) rest = 1 ∷ unary c (frame s rest)

strip_unary : ℕ → Text → Option Text
strip_unary n [] = none
strip_unary zero (c ∷ r) = if c == 0 then some r else none
strip_unary (suc n) (c ∷ r) = let rest = strip_unary n r in if c == 1 then rest else none

strip_frame : Text → Text → Option Text
strip_frame s [] = none
strip_frame [] (c ∷ r) = if c == 0 then some r else none
strip_frame (x ∷ s) (c ∷ r) =
    if c == 1 then elim (strip_unary x r) [ none ↦ none | some t ↦ strip_frame s t ] else none

-- the text in a frame with nothing behind it; the number is the element that is being read
read : Option ℕ → Text → Option Text
read m [] = none
read none (c ∷ r) = let rest = read (some 0) r in if c == 0 then some [] else rest
read (some n) (c ∷ r) =
    let more = read (some (n + 1)) r in
    let next = read none r in
    if c == 0 then elim next [ none ↦ none | some s ↦ some (n ∷ s) ] else more

strip-unary :
    (n m : ℕ) (rest r : Text) → strip_unary n (unary m rest) ≡ some r → (n ≡ m) × (r ≡ rest)
unfolding strip_unary unary
strip-unary zero zero rest r h = ground arith
strip-unary zero (suc m) rest r h = ground arith
strip-unary (suc n) zero rest r h = ground arith
strip-unary (suc n) (suc m) rest r h =
    let (a, b) = strip-unary n m rest r h in (ap (λ (k : ℕ). suc k) a, b)

strip-unary_self : (n : ℕ) (rest : Text) → strip_unary n (unary n rest) ≡ some rest
unfolding strip_unary unary
strip-unary_self zero rest = refl
strip-unary_self (suc n) rest = strip-unary_self n rest

strip-frame_self : (s rest : Text) → strip_frame s (frame s rest) ≡ some rest
unfolding strip_frame frame
strip-frame_self [] rest = refl
strip-frame_self (x ∷ s) rest = rw (strip-unary_self x (frame s rest)) (strip-frame_self s rest)

strip-frame : (s t rest r : Text) → strip_frame s (frame t rest) ≡ some r → (s ≡ t) × (r ≡ rest)
unfolding strip_frame frame
strip-frame [] [] rest r h = ground arith
strip-frame [] (x ∷ t) rest r h = ground arith
strip-frame (x ∷ s) [] rest r h = ground arith
strip-frame (x ∷ s) (y ∷ t) rest r h =
    elim (Option-cases (strip_unary x (unary y (frame t rest)))) [
      | inl e ↦ cc (rw e at h)
      | inr (u, e) ↦
          let (a, b) = strip-unary x y (frame t rest) u e in
          let h' : strip_frame s u ≡ some r = rw e at h in
          let (p, q) = strip-frame s t rest r (rw b at h') in (cc (a, p), q)
    ]

read-step : (n : ℕ) (r : Text) → read (some n) (1 ∷ r) ≡ read (some (n + 1)) r
unfolding read
read-step n r = refl

read-step_none : (r : Text) → read none (1 ∷ r) ≡ read (some 0) r
unfolding read
read-step_none r = refl

read_end : read none (0 ∷ []) ≡ some []
unfolding read
read_end = refl

read-next : (x : ℕ) (s r : Text) → read none r ≡ some s → read (some (0 + x)) (0 ∷ r) ≡ some (x ∷ s)
unfolding read
read-next x s r h = rw h (ground arith)

read-unary : (m n : ℕ) (rest : Text) → read (some n) (unary m rest) ≡ read (some (n + m)) (0 ∷ rest)
unfolding unary
read-unary zero n rest = rw add-zero
read-unary (suc m) n rest =
    read-step n (unary m rest)
    ∙ read-unary m (n + 1) rest
    ∙ ap (λ (k : ℕ). read (some k) (0 ∷ rest)) (omega arith)

read-frame : (s : Text) → read none (frame s []) ≡ some s
unfolding frame
read-frame [] = read_end
read-frame (x ∷ s) =
    read-step_none (unary x (frame s []))
    ∙ read-unary x 0 (frame s [])
    ∙ read-next x s (frame s []) (read-frame s)

abbrev padded : Text
padded = 0 ∷ 0 ∷ 0 ∷ 0 ∷ 0 ∷ 0 ∷ 0 ∷ 0 ∷ 0 ∷ 0 ∷ 0 ∷ 0 ∷ 0 ∷ 0 ∷ 0 ∷ 0 ∷ []

then_read : Option Text → Option Text
then_read none = none
then_read (some t) = read none t

then_strip : Text → Option Text → Option Text
then_strip ad none = none
then_strip ad (some r) = then_read (strip_frame ad r)

unfoldable pub open_frames : Text → Text → Text → Option Text
unfolding then_strip then_read strip_frame strip_unary read
open_frames k ad ct = then_strip ad (strip_frame k ct)

-- Sixteen zeros, and frames of the key, the associated data and the text.
abbrev pub framed : Cipher
framed = record {
  encrypt = λ k n ad p. padded ++ frame k (frame ad (frame p []));
  decrypt = λ k n ad ct. open_frames k ad (drop 16 ct);
}

bytes-unary : (n : ℕ) (rest : Text) → All (λ b. b < 256) rest → All (λ b. b < 256) (unary n rest)
unfolding unary
bytes-unary zero rest h = (omega arith, h)
bytes-unary (suc n) rest h = (omega arith, bytes-unary n rest h)

bytes-frame : (s rest : Text) → All (λ b. b < 256) rest → All (λ b. b < 256) (frame s rest)
unfolding frame
bytes-frame [] rest h = (omega arith, h)
bytes-frame (x ∷ s) rest h = (omega arith, bytes-unary x (frame s rest) (bytes-frame s rest h))

zero_bytes : All (λ b. b < 256) padded
zero_bytes = omega arith

open_frames_lem : (k ad ct : Text) → open_frames k ad ct ≡ then_strip ad (strip_frame k ct)
unfolding open_frames
open_frames_lem k ad ct = refl

then_strip-some : (ad r : Text) → then_strip ad (some r) ≡ then_read (strip_frame ad r)
unfolding then_strip
then_strip-some ad r = refl

then_read-some : (t : Text) → then_read (some t) ≡ read none t
unfolding then_read
then_read-some t = refl

framed-opens : (k ad p : Text) → open_frames k ad (frame k (frame ad (frame p []))) ≡ some p
framed-opens k ad p =
    open_frames_lem k ad _
    ∙ ap (then_strip ad) (strip-frame_self k (frame ad (frame p [])))
    ∙ then_strip-some ad _
    ∙ ap then_read (strip-frame_self ad (frame p []))
    ∙ then_read-some _
    ∙ read-frame p

authentic_rest :
    (ad p ad' q : Text) → then_read (strip_frame ad' (frame ad (frame p []))) ≡ some q → ad' ≡ ad
unfolding then_read
authentic_rest ad p ad' q h = elim (Option-cases (strip_frame ad' (frame ad (frame p [])))) [
  | inl f ↦ absurd (cc (rw f at h))
  | inr (t, f) ↦ (strip-frame ad' ad (frame p []) t f).0
]

framed-authentic :
    (k ad p k' ad' q : Text)
    → open_frames k' ad' (frame k (frame ad (frame p []))) ≡ some q
    → (k' ≡ k) × (ad' ≡ ad)
framed-authentic k ad p k' ad' q h =
    elim (Option-cases (strip_frame k' (frame k (frame ad (frame p []))))) [
      | inl e ↦ absurd (unfold then_strip in cc (sym (open_frames_lem k' ad' _) ∙ h, e))
      | inr (r, e) ↦
          let (a, b) = strip-frame k' k (frame ad (frame p [])) r e in
          let h' : then_read (strip_frame ad' r) ≡ some q =
            sym (then_strip-some ad' r)
            ∙ ap (then_strip ad') (sym e)
            ∙ sym (open_frames_lem k' ad' _)
            ∙ h in
          (a, authentic_rest ad p ad' q (rw b at h'))
    ]

pub framed_laws : CipherLaws framed
framed_laws = record {
  decrypt-encrypt = λ k n ad p. framed-opens k ad p;
  authentic = λ k n ad p k' ad' q h. framed-authentic k ad p k' ad' q h;
  tag = λ k n ad p. omega arith;
  bytes = λ k n ad p.
      All-append (λ b. b < 256) padded _ zero_bytes
        (bytes-frame k _ (bytes-frame ad _ (bytes-frame p [] tt)));
}
