-- ===== src/Config/Rekeyed/Back.antt =====
-- A map that got new keys has its old ones again under a function that takes the new ones back.
use jitenv.Base.{
  true, false, List, [], ◌∷◌, ◌++◌, append_assoc, append-nil, Result, ok, ◌≡◌, ◌∙◌, refl, sym, ap,
  subst, arith, inl, inr, Bool-cases, Text, same, same_iff, Assoc, insert, contains_text,
  contains_text-append, All,
}
use jitenv.Config.Sealing.{SealError, Randoms}
use jitenv.Config.Sealing.RoundTrip.{chained, ok_parts, IsDraw}
use jitenv.Config.Rekeyed.{rekey, seal_rekeyed, open_all}
use jitenv.Config.Assigning.{keys_of}

-- No text is there twice.
abbrev pub IsDistinct : List Text → Type 0
IsDistinct [] = Unit
IsDistinct (k ∷ ks) = (contains_text ks k ≡ false) × IsDistinct ks

insert-fresh :
    {V : Type 0} (k : Text) (v : V) (m : Assoc V)
    → contains_text (keys_of m) k ≡ false
    → insert k v m ≡ m ++ ((k, v) ∷ [])
unfolding insert contains_text
insert-fresh k v [] h = refl
insert-fresh k v ((j, w) ∷ m) h = ground (arith, insert-fresh k v m)

keys_of-append : {V : Type 0} (a b : Assoc V) → keys_of (a ++ b) ≡ keys_of a ++ keys_of b
keys_of-append [] b = refl
keys_of-append ((k, v) ∷ a) b = ap (λ ks. k ∷ ks) (keys_of-append a b)

distinct_middle :
    (as' : List Text) (k : Text) (bs : List Text)
    → IsDistinct (as' ++ (k ∷ bs))
    → contains_text as' k ≡ false
unfolding contains_text
distinct_middle [] k bs h = refl
distinct_middle (a ∷ as') k bs h =
    let rest = distinct_middle as' k bs h.1 in
    let apart = contains_text-append as' (k ∷ bs) a in ground (arith, same_iff a k, same_iff k a)

-- the new entry joins those that are there
shifted :
    {V : Type 0} (out : Assoc V) (k : Text) (v : V) (ks : List Text)
    → keys_of out ++ (k ∷ ks) ≡ keys_of (out ++ ((k, v) ∷ [])) ++ ks
shifted out k v ks =
    sym (
      ap (λ l. l ++ ks) (keys_of-append out ((k, v) ∷ [])) ∙ append_assoc (keys_of out) (k ∷ []) ks)

-- the entries under their new keys, each value with what is done to it under that key
abbrev pub mapped : {V W : Type 0} → (Text → Text) → (Text → V → W) → Assoc V → Assoc W
mapped f h [] = []
mapped f h ((k, v) ∷ m) = (f k, h (f k) v) ∷ mapped f h m

-- The second function takes the key back, and the value with it.
abbrev pub IsBack :
    {V W : Type 0}
    → (Text → Text)
    → (Text → V → W)
    → (Text → Text)
    → (Text → W → V)
    → Text × V
    → Type 0
IsBack f h f' g p = (f' (f p.0) ≡ p.0) × (g (f p.0) (h (f p.0) p.1) ≡ p.1)

-- If the keys of a map differ and a function takes the new keys back, the loop gives the map again.
pub rekey-mapped :
    {V W : Type 0} (f f' : Text → Text) (h : Text → V → W) (g : Text → W → V) (out m : Assoc V)
    → IsDistinct (keys_of out ++ keys_of m)
    → All (IsBack f h f' g) m
    → rekey f' g out (mapped f h m) ≡ out ++ m
unfolding rekey
rekey-mapped f f' h g out [] d a = sym (append-nil out)
rekey-mapped f f' h g out ((k, v) ∷ m) d a =
    let free = distinct_middle (keys_of out) k (keys_of m) d in
    let put : insert (f' (f k)) (g (f k) (h (f k) v)) out ≡ out ++ ((k, v) ∷ []) =
      rw (a.0.0, a.0.1) (insert-fresh k v out free) in
    ap (λ o. rekey f' g o (mapped f h m)) put
    ∙ rekey-mapped f f' h g (out ++ ((k, v) ∷ [])) m
        (subst IsDistinct (shifted out k v (keys_of m)) d) a.1
    ∙ append_assoc out ((k, v) ∷ []) m

-- What is sealed from this value under this key is opened as `h` gives it.
abbrev pub Opens :
    {V W U : Type 0}
    → (Text → V → Randoms → Result SealError (W × Randoms))
    → (Text → W → Result SealError U)
    → (Text → V → U)
    → Text
    → V
    → Type 0
Opens {W = W} g o h k v =
    (rs : Randoms) (w : W) (left : Randoms)
    → All IsDraw rs
    → g k v rs ≡ ok (w, left)
    → (o k w ≡ ok (h k v)) × All IsDraw left

module _ {V W U : Type 0} (f : Text → Text)
    (g : Text → V → Randoms → Result SealError (W × Randoms)) (o : Text → W → Result SealError U)
    (h : Text → V → U) where
  -- If the new keys differ and each value that is sealed is opened again, the map that the loop makes is
  -- opened to the entries under their new keys.
  pub seal_rekeyed-open_all :
      (out : Assoc W) (m : Assoc V) (rs : Randoms) (out' : Assoc W) (left : Randoms)
      → IsDistinct (keys_of out ++ keys_of (mapped f h m))
      → All (λ p. Opens g o h (f p.0) p.1) m
      → All IsDraw rs
      → seal_rekeyed f g out m rs ≡ ok (out', left)
      → (l : Assoc W) × (out' ≡ out ++ l) × (open_all o l ≡ ok (mapped f h m)) × All IsDraw left
  unfolding seal_rekeyed open_all
  seal_rekeyed-open_all out [] rs out' left d a r e =
      let (p, q) = ok_parts e in ([], sym p ∙ sym (append-nil out), refl, rw (← q) r)
  seal_rekeyed-open_all out ((k, v) ∷ m) rs out' left d a r e =
      let ((w, mid), e1, e2) = chained (g (f k) v rs) _ e in
      let (opens, draws) = a.0 rs w mid r e1 in
      let put = insert-fresh (f k) w out (distinct_middle (keys_of out) (f k) _ d) in
      let (l, made, all_open, rest) =
        seal_rekeyed-open_all (out ++ ((f k, w) ∷ [])) m mid out' left
          (subst IsDistinct (shifted out (f k) w (keys_of (mapped f h m))) d) a.1 draws
          (sym (ap (λ b. seal_rekeyed f g b m mid) put) ∙ e2) in
      ((f k, w) ∷ l, made ∙ append_assoc out ((f k, w) ∷ []) l, rw (opens, all_open), rest)

apart :
    {V W : Type 0} (f f' : Text → Text) (h : Text → V → W) (k : Text) (m : Assoc V)
    → f' (f k) ≡ k
    → All (λ j. f' (f j) ≡ j) (keys_of m)
    → contains_text (keys_of m) k ≡ false
    → contains_text (keys_of (mapped f h m)) (f k) ≡ false
unfolding contains_text
apart f f' h k [] b a d = refl
apart f f' h k ((j, v) ∷ m) b a d = elim (Bool-cases (same (f j) (f k))) [
  | inl s ↦
      let one : j ≡ k = sym a.0 ∙ ap f' ((same_iff (f j) (f k)).0 s) ∙ b in
      let there : same j k ≡ true = (same_iff j k).1 one in absurd (ground arith)
  | inr s ↦ rw s (apart f f' h k m b a.1 (ground arith))
]

-- The new keys differ where the old ones do and can be had back.
pub mapped-IsDistinct :
    {V W : Type 0} (f f' : Text → Text) (h : Text → V → W) (m : Assoc V)
    → IsDistinct (keys_of m)
    → All (λ k. f' (f k) ≡ k) (keys_of m)
    → IsDistinct (keys_of (mapped f h m))
mapped-IsDistinct f f' h [] d a = tt
mapped-IsDistinct f f' h ((k, v) ∷ m) d a =
    (apart f f' h k m a.0 a.1 d.0, mapped-IsDistinct f f' h m d.1 a.1)
