-- ===== src/Paths/Shrink.antt =====
-- `path.Dir` makes a path shorter, or gives one of the two paths that it leaves alone.
use mathlib.Core.List.{reverse_aux}
use native.Mathlib.Omega.{arith}
use jitenv.Base.{
  ℕ, ◌+◌, ◌≤◌, ◌<◌, Bool, true, false, ◌||◌, ◌≡◌, ◌⊎◌, inl, inr, refl, ap, List, [], ◌∷◌, ◌++◌,
  reverse, ◌==◌, if◌then◌else◌, Text, is_empty, split, join, trim_right, same, same_iff, length,
  length-append, Bool-cases, ==_iff, cons_first,
}
use jitenv.Paths.{
  slash, not_slash, dot, dot_dot, is_abs, pop, clean_step, clean_elements, print_path, clean, dir,
}

-- The characters of the elements, one more for each.
abbrev total : List Text → ℕ
total [] = 0
total (w ∷ ws) = length w + 1 + total ws

length-join : (w : Text) (ws : List Text) → length (join slash (w ∷ ws)) + 1 ≡ total (w ∷ ws)
unfolding join
length-join w [] = omega arith
length-join w (v ∷ ws) =
    omega (arith, length-append w (slash ∷ join slash (v ∷ ws)), length-join v ws)

total-cons_first :
    (c : ℕ) (w : Text) (ws : List Text) → total (cons_first c (w ∷ ws)) ≡ 1 + total (w ∷ ws)
total-cons_first c w ws = omega arith

total-reverse_aux : (ws out : List Text) → total (reverse_aux ws out) ≡ total ws + total out
total-reverse_aux [] out = omega arith
total-reverse_aux (w ∷ ws) out = omega (arith, total-reverse_aux ws (w ∷ out))

split-ne-nil : (s : Text) → (w : Text) × (ws : List Text) × (split slash s ≡ w ∷ ws)
unfolding split
split-ne-nil [] = ([], [], refl)
split-ne-nil (c ∷ s) = elim (Bool-cases (c == slash)) [
  | inl e ↦ ([], split slash s, rw e)
  | inr e ↦ let (w, ws, q) = split-ne-nil s in (c ∷ w, ws, rw (e, q))
]

total-split : (s : Text) → total (split slash s) ≡ length s + 1
unfolding split
total-split [] = omega arith
total-split (c ∷ s) = elim (Bool-cases (c == slash)) [
  | inl e ↦ rw e (omega (arith, total-split s))
  | inr e ↦
      let (w, ws, q) = split-ne-nil s in
      rw (e, q) (omega (arith, total-cons_first c w ws, ap total q, total-split s))
]

split-append_slash : (s : Text) → split slash (s ++ slash ∷ []) ≡ split slash s ++ [] ∷ []
unfolding split
split-append_slash [] = refl
split-append_slash (c ∷ s) = elim (Bool-cases (c == slash)) [
  | inl e ↦ rw (e, split-append_slash s)
  | inr e ↦ let (w, ws, q) = split-ne-nil s in rw (e, split-append_slash s, q)
]

total-pop : (rooted : Bool) (out : List Text) → total (pop rooted out) ≤ total out + 3
unfolding pop
total-pop rooted [] = ground arith
total-pop rooted (w ∷ ws) = ground arith

total-clean_step :
    (rooted : Bool) (w : Text) (out : List Text)
    → total (clean_step rooted w out) ≤ length w + 1 + total out
unfolding clean_step
total-clean_step rooted w out = elim (Bool-cases (is_empty w || same w dot)) [
  | inl e ↦ rw e (omega arith)
  | inr e ↦ rw e (elim (Bool-cases (same w dot_dot)) [
    | inl d ↦
        rw d (omega (arith, total-pop rooted out, ap (length {A = ℕ}) ((same_iff w dot_dot).0 d)))
    | inr d ↦ rw d (omega arith)
  ])
]

total-clean_elements :
    (rooted : Bool) (ws out : List Text)
    → total (clean_elements rooted ws out) ≤ total ws + total out
unfolding clean_elements
total-clean_elements rooted [] out = omega arith
total-clean_elements rooted (w ∷ ws) out =
    omega (
      arith,
      total-clean_elements rooted ws (clean_step rooted w out),
      total-clean_step rooted w out,
    )

clean_elements_nil :
    (rooted : Bool) (ws out : List Text)
    → clean_elements rooted (ws ++ [] ∷ []) out ≡ clean_elements rooted ws out
unfolding clean_elements
clean_elements_nil rooted [] out = refl
clean_elements_nil rooted (w ∷ ws) out = clean_elements_nil rooted ws (clean_step rooted w out)

-- `p` is the directory of a longer path.
abbrev pub Above : Text → ℕ → Type 0
Above p n = (p ≡ dot) ⊎ (p ≡ slash ∷ []) ⊎ (length p < n)

print-Above :
    (rooted : Bool) (ws : List Text) (n : ℕ)
    → total ws ≤ n + (if rooted then 0 else 1)
    → Above (print_path rooted ws) (n + 1)
print-Above true [] n h = unfold join in inr (inl refl)
print-Above false [] n h = inl refl
print-Above true (w ∷ ws) n h = inr (inr (omega (arith, length-join w ws)))
print-Above false (w ∷ ws) n h = inr (inr (omega (arith, length-join w ws)))

split-eq : (c : ℕ) (q : Text) → (c == slash) ≡ true → split slash (c ∷ q) ≡ [] ∷ split slash q
unfolding split
split-eq c q e = rw e

-- The elements of `q`, cleaned; an absolute path starts with an empty element.
elements-le :
    (q : Text)
    → total (reverse (clean_elements (is_abs (q ++ slash ∷ [])) (split slash q) []))
      ≤ length q + (if is_abs (q ++ slash ∷ []) then 0 else 1)
unfolding clean_elements clean_step
elements-le [] = unfold split in omega arith
elements-le (c ∷ q) = elim (Bool-cases (c == slash)) [
  | inl e ↦
      rw (e, split-eq c q e)
        (omega (
          arith,
          total-reverse_aux (clean_elements true (split slash q) []) [],
          total-clean_elements true (split slash q) [],
          total-split q,
        ))
  | inr e ↦ rw e (
      omega (
        arith,
        total-reverse_aux (clean_elements false (split slash (c ∷ q)) []) [],
        total-clean_elements false (split slash (c ∷ q)) [],
        total-split (c ∷ q),
      ))
]

last-ne :
    (c : ℕ) (p q : Text)
    → trim_right not_slash p ≡ q ++ slash ∷ []
    → trim_right not_slash (c ∷ p) ≡ (c ∷ q) ++ slash ∷ []
unfolding trim_right
last-ne c p [] e = rw e
last-ne c p (d ∷ q) e = rw e

weaken : {p : Text} {m n : ℕ} → Above p m → m ≤ n → Above p n
weaken (inl e) l = inl e
weaken (inr (inl e)) l = inr (inl e)
weaken (inr (inr h)) l = inr (inr (omega arith))

clean-slash-Above : (q : Text) → Above (clean (q ++ slash ∷ [])) (length q + 1)
unfolding clean
clean-slash-Above q =
    rw (split-append_slash q, clean_elements_nil (is_abs (q ++ slash ∷ [])) (split slash q) [])
      (print-Above (is_abs (q ++ slash ∷ [])) _ (length q) (elements-le q))

trim_right_cases :
    (p : Text)
    → (trim_right not_slash p ≡ [])
      ⊎ ((q : Text) × (trim_right not_slash p ≡ q ++ slash ∷ []) × (length q + 1 ≤ length p))
unfolding trim_right
trim_right_cases [] = inl refl
trim_right_cases (c ∷ p) = elim (trim_right_cases p) [
  | inr (q, e, l) ↦ inr (c ∷ q, last-ne c p q e, omega arith)
  | inl e ↦ elim (Bool-cases (c == slash)) [
    | inl s ↦ inr ([], rw (e, s) (ap (λ d. d ∷ []) ((==_iff c slash).0 s)), omega arith)
    | inr s ↦ inl (rw (e, s))
  ]
]

-- One call of `path.Dir` gives a path that it leaves alone, or a shorter one.
pub dir-Above : (p : Text) → Above (dir p) (length p)
unfolding dir
dir-Above p = elim (trim_right_cases p) [
  | inl e ↦ rw e (unfold clean clean_elements split in inl refl)
  | inr (q, e, l) ↦ rw e (weaken (clean-slash-Above q) l)
]

pub dir-dot : dir dot ≡ dot
unfolding dir clean clean_elements split trim_right
dir-dot = refl

pub dir-slash : dir (slash ∷ []) ≡ slash ∷ []
unfolding dir clean clean_elements split trim_right join
dir-slash = refl
