-- ===== src/Base/Lists.antt =====
-- Lists measured and cut by native numbers, under the library's names.
use Prim.Native.Nat.{ℕ, zero, suc, ◌+◌}
use mathlib.Core.Path.{◌≡◌, refl}
use mathlib.Core.Bool.{Bool, true, false, ◌||◌, ◌&&◌}
use mathlib.Core.List.{List, [], ◌∷◌, ◌++◌}
use native.Mathlib.Omega.{arith}

module _ {ℓ} {A : Type ℓ} where
  abbrev pub length : List A → ℕ
  length [] = 0
  length (x ∷ xs) = suc (length xs)

  abbrev pub take : ℕ → List A → List A
  take zero xs = []
  take (suc n) [] = []
  take (suc n) (x ∷ xs) = x ∷ take n xs

  abbrev pub drop : ℕ → List A → List A
  drop zero xs = xs
  drop (suc n) [] = []
  drop (suc n) (x ∷ xs) = drop n xs

  abbrev pub is_empty : List A → Bool
  is_empty [] = true
  is_empty (x ∷ xs) = false

  abbrev pub all : (A → Bool) → List A → Bool
  all test [] = true
  all test (a ∷ rest) = test a && all test rest

  abbrev pub any : (A → Bool) → List A → Bool
  any test [] = false
  any test (a ∷ rest) = test a || any test rest

  -- Every element satisfies the predicate.
  abbrev pub All {κ} : (A → Type κ) → List A → Type κ
  All Q [] = Unit
  All Q (a ∷ rest) = Q a × All Q rest

module _ {ℓ} {A : Type ℓ} where
  pub All-append {κ} : (Q : A → Type κ) (as' bs : List A) → All Q as' → All Q bs → All Q (as' ++ bs)
  All-append Q [] bs left right = right
  All-append Q (a ∷ rest) bs left right = (left.0, All-append Q rest bs left.1 right)

  pub any-append :
      (test : A → Bool) (as' bs : List A) → any test (as' ++ bs) ≡ (any test as' || any test bs)
  any-append test [] bs = refl
  any-append test (a ∷ rest) bs = ground (arith, any-append test rest bs)

  pub length-append : (as' bs : List A) → length (as' ++ bs) ≡ length as' + length bs
  length-append [] bs = omega arith
  length-append (a ∷ rest) bs = omega (arith, length-append rest bs)

  pub All-append_left {κ} : (Q : A → Type κ) (as' bs : List A) → All Q (as' ++ bs) → All Q as'
  All-append_left Q [] bs h = tt
  All-append_left Q (a ∷ rest) bs h = (h.0, All-append_left Q rest bs h.1)

  pub All-append_right {κ} : (Q : A → Type κ) (as' bs : List A) → All Q (as' ++ bs) → All Q bs
  All-append_right Q [] bs h = h
  All-append_right Q (a ∷ rest) bs h = All-append_right Q rest bs h.1
