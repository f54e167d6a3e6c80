-- ===== src/Paths/Segments.antt =====
-- Canonical absolute paths as lists of segments.
use jitenv.Base.{
  ℕ, ◌+◌, ◌≤◌, Bool, true, false, ◌||◌, ◌≡◌, ◌∙◌, refl, sym, ap, arith, List, [], ◌∷◌, ◌++◌,
  reverse, Text, All, any, is_empty, split, join, trim_right, same, append_assoc, append-nil,
  split-append, length-append, split_none, trim_right-append, trim_right_kept, trim_right-all,
  split-any, all, Bool-cases, inl, inr, length, same_of_ne,
}
use mathlib.Core.List.{reverse_aux, reverse-cons, reverse-reverse}
use jitenv.Paths.{
  pop, slash, is_slash, not_slash, dot, dot_dot, is_abs, clean_step, clean_elements, clean, dir,
}

-- An element of a canonical path.
pub record IsSegment (w : Text) : Type 0 where
  pub nonempty : is_empty w ≡ false
  pub no_slash : any is_slash w ≡ false
  pub ne_dot : same w dot ≡ false
  pub ne_dot_dot : same w dot_dot ≡ false

-- The absolute path with these elements.
unfoldable pub path_of : List Text → Text
unfolding join
path_of ws = slash ∷ join slash ws

clean_elements-append :
    (rooted : Bool) (xs ys out : List Text)
    → clean_elements rooted (xs ++ ys) out ≡ clean_elements rooted ys (clean_elements rooted xs out)
unfolding clean_elements
clean_elements-append rooted [] ys out = refl
clean_elements-append rooted (x ∷ xs) ys out =
    clean_elements-append rooted xs ys (clean_step rooted x out)

clean_step-IsSegment :
    (rooted : Bool) (w : Text) (out : List Text) → IsSegment w → clean_step rooted w out ≡ w ∷ out
unfolding clean_step
clean_step-IsSegment rooted w out h = rw (h.nonempty, h.ne_dot, h.ne_dot_dot)

clean_elements-IsSegment :
    (ws out : List Text) → All IsSegment ws → clean_elements true ws out ≡ reverse ws ++ out
unfolding clean_elements
clean_elements-IsSegment [] out h = refl
clean_elements-IsSegment (w ∷ ws) out h = rw (
  clean_step-IsSegment true w out h.0,
  clean_elements-IsSegment ws (w ∷ out) h.1,
  reverse-cons w ws,
  append_assoc,
)

split-join :
    (w : Text) (ws : List Text)
    → All IsSegment (w ∷ ws)
    → split slash (join slash (w ∷ ws)) ≡ w ∷ ws
unfolding join
split-join w [] h = split_none slash w h.0.no_slash
split-join w (v ∷ ws) h =
    split-append slash w _ h.0.no_slash ∙ ap (λ t. w ∷ t) (split-join v ws h.1)

split-join-slash :
    (w : Text) (ws : List Text)
    → All IsSegment (w ∷ ws)
    → split slash (join slash (w ∷ ws) ++ slash ∷ []) ≡ w ∷ ws ++ [] ∷ []
unfolding join split
split-join-slash w [] h = split-append slash w [] h.0.no_slash
split-join-slash w (v ∷ ws) h =
    ap (split slash) (append_assoc w _ _)
    ∙ split-append slash w _ h.0.no_slash
    ∙ ap (λ t. w ∷ t) (split-join-slash v ws h.1)

-- A canonical path is its own Clean, with or without a slash at the end.
pub clean-path_of : (ws : List Text) → All IsSegment ws → clean (path_of ws) ≡ path_of ws
unfolding clean path_of split
clean-path_of [] h = refl
clean-path_of (w ∷ ws) h =
    rw (split-join w ws h)
      (rw (clean_elements-IsSegment (w ∷ ws) [] h, append-nil, reverse-reverse))

clean-path_of-slash :
    (ws : List Text) (w : Text)
    → All IsSegment (w ∷ ws)
    → clean (path_of (w ∷ ws) ++ slash ∷ []) ≡ path_of (w ∷ ws)
unfolding clean path_of
clean-path_of-slash ws w h = rw (split-join-slash w ws h) (
    rw
      (
        clean_elements-append true (w ∷ ws) ([] ∷ []) [],
        clean_elements-IsSegment (w ∷ ws) [] h,
        append-nil,
      )
      (unfold clean_elements in ap (λ t. slash ∷ join slash t) (reverse-reverse (w ∷ ws))))

-- The text before the last element.
abbrev base : List Text → Text
base [] = slash ∷ []
base (w ∷ ws) = path_of (w ∷ ws) ++ slash ∷ []

join-append :
    (v : Text) (ws : List Text) (w : Text)
    → join slash (v ∷ ws ++ w ∷ []) ≡ join slash (v ∷ ws) ++ (slash ∷ w)
unfolding join
join-append v [] w = refl
join-append v (u ∷ ws) w =
    ap (λ t. v ++ (slash ∷ t)) (join-append u ws w) ∙ sym (append_assoc v _ _)

path_of-append : (ws : List Text) (w : Text) → path_of (ws ++ w ∷ []) ≡ base ws ++ w
unfolding path_of
path_of-append [] w = refl
path_of-append (v ∷ ws) w =
    ap (λ t. slash ∷ t)
      (join-append v ws w ∙ sym (append_assoc (join slash (v ∷ ws)) (slash ∷ []) w))

no_slash-all : (w : Text) → any is_slash w ≡ false → all not_slash w ≡ true
no_slash-all [] h = refl
no_slash-all (c ∷ w) h = ground (arith, no_slash-all w)

trim_right-base : (ws : List Text) → trim_right not_slash (base ws) ≡ base ws
trim_right-base [] = trim_right_kept not_slash [] slash refl
trim_right-base (w ∷ ws) = trim_right_kept not_slash (path_of (w ∷ ws)) slash refl

clean-base : (ws : List Text) → All IsSegment ws → clean (base ws) ≡ path_of ws
clean-base [] h = unfold clean path_of split in refl
clean-base (w ∷ ws) h = clean-path_of-slash ws w h

-- `path.Dir` of a canonical path drops the last element.
pub dir-path_of :
    (ws : List Text) (w : Text)
    → All IsSegment ws
    → IsSegment w
    → dir (path_of (ws ++ w ∷ [])) ≡ path_of ws
unfolding dir
dir-path_of ws w h k =
    rw
      (
        path_of-append ws w,
        trim_right-append not_slash (base ws) w
            (trim_right-all not_slash w (no_slash-all w k.no_slash)),
        trim_right-base ws,
      )
      (clean-base ws h)

-- The root is its own directory.
pub dir_root : dir (path_of []) ≡ path_of []
unfolding dir path_of split clean
dir_root = refl

split-IsSegment :
    (w : Text)
    → any is_slash w ≡ false
    → is_empty w ≡ false
    → same w dot ≡ false
    → same w dot_dot ≡ false
    → IsSegment w
split-IsSegment w h e d p = record { nonempty = e; no_slash = h; ne_dot = d; ne_dot_dot = p }

pop-IsSegment : (out : List Text) → All IsSegment out → All IsSegment (pop true out)
unfolding pop
pop-IsSegment [] h = tt
pop-IsSegment (w ∷ ws) h = rw h.0.ne_dot_dot h.1

clean_step-All :
    (w : Text) (out : List Text)
    → any is_slash w ≡ false
    → All IsSegment out
    → All IsSegment (clean_step true w out)
unfolding clean_step
clean_step-All w out n h = elim (Bool-cases (is_empty w || same w dot)) [
  | inl e ↦ rw e h
  | inr e ↦ rw e (elim (Bool-cases (same w dot_dot)) [
    | inl d ↦ rw d (pop-IsSegment out h)
    | inr d ↦ rw d (split-IsSegment w n (ground arith) (ground arith) d, h)
  ])
]

clean_elements-All :
    (ws out : List Text)
    → All (λ w. any is_slash w ≡ false) ws
    → All IsSegment out
    → All IsSegment (clean_elements true ws out)
unfolding clean_elements
clean_elements-All [] out n h = h
clean_elements-All (w ∷ ws) out n h =
    clean_elements-All ws (clean_step true w out) n.1 (clean_step-All w out n.0 h)

All-reverse :
    (ws out : List Text) → All IsSegment ws → All IsSegment out → All IsSegment (reverse_aux ws out)
All-reverse [] out h k = k
All-reverse (w ∷ ws) out h k = All-reverse ws (w ∷ out) h.1 (h.0, k)

-- Clean of an absolute path is canonical.
pub clean-IsCanonical :
    (p : Text) → is_abs p ≡ true → (ws : List Text) × All IsSegment ws × (clean p ≡ path_of ws)
unfolding clean path_of
clean-IsCanonical p h = (
  reverse (clean_elements true (split slash p) []),
  All-reverse (clean_elements true (split slash p) []) []
      (clean_elements-All (split slash p) [] (split-any slash p) tt) tt,
  rw h,
)

length-base : (ws : List Text) → length (path_of ws) ≤ length (base ws)
length-base [] = unfold path_of join in omega arith
length-base (w ∷ ws) = omega (arith, length-append (path_of (w ∷ ws)) (slash ∷ []))

length-pos : (w : Text) → is_empty w ≡ false → 1 ≤ length w
length-pos [] h = cc
length-pos (c ∷ w) h = omega arith

-- A path differs from the paths of its directories.
pub same-path_of :
    (ws : List Text) (w : Text) → IsSegment w → same (path_of ws) (path_of (ws ++ w ∷ [])) ≡ false
same-path_of ws w k = same_of_ne (path_of ws) (path_of (ws ++ w ∷ [])) (λ e. omega (
  arith,
  ap (length {A = ℕ}) (e ∙ path_of-append ws w),
  length-append (base ws) w,
  length-base ws,
  length-pos w k.nonempty,
))

length-le-join : (w : Text) (ws : List Text) → length (w ∷ ws) ≤ length (join slash (w ∷ ws)) + 1
unfolding join
length-le-join w [] = omega arith
length-le-join w (v ∷ ws) =
    omega (arith, length-append w (slash ∷ join slash (v ∷ ws)), length-le-join v ws)

pub length-le-path_of : (ws : List Text) → length ws ≤ length (path_of ws)
unfolding path_of
length-le-path_of [] = omega arith
length-le-path_of (w ∷ ws) = omega (arith, length-le-join w ws)
