-- ===== src/Config/Rekeyed.antt =====
-- internal/config/encrypt.go and decrypt.go: the loops that build a map under new keys, with what is done
-- to each value on the way.
pub mod Back
use jitenv.Base.{List, [], ◌∷◌, Result, ok, err, ◌>>=◌, Text, Assoc, lookup, insert}
use jitenv.Config.Sealing.{SealError, Randoms}

module _ {V W : Type 0} where
  -- each entry goes under its new key
  unfoldable pub rekey : (Text → Text) → (Text → V → W) → Assoc W → Assoc V → Assoc W
  unfolding insert
  rekey f g out [] = out
  rekey f g out ((k, v) ∷ rest) = rekey f g (insert (f k) (g k v) out) rest

  -- a value is sealed under its new key
  unfoldable pub seal_rekeyed :
      (Text → Text)
      → (Text → V → Randoms → Result SealError (W × Randoms))
      → Assoc W
      → Assoc V
      → Randoms
      → Result SealError (Assoc W × Randoms)
  unfolding insert
  seal_rekeyed f g out [] rs = ok (out, rs)
  seal_rekeyed f g out ((k, v) ∷ rest) rs = do
    (w, r) ← g (f k) v rs
    seal_rekeyed f g (insert (f k) w out) rest r

  -- a value is opened under its key
  unfoldable pub open_all : (Text → V → Result SealError W) → Assoc V → Result SealError (Assoc W)
  open_all o [] = ok []
  open_all o ((k, v) ∷ rest) = do w ← o k v; rest' ← open_all o rest; ok ((k, w) ∷ rest')
