-- ===== src/Config/Index/Ancestors.antt =====
-- `matchAncestor` visits every ancestor of its path, and always returns.
use jitenv.Base.{
  ℕ, zero, suc, ◌+◌, ◌≤◌, ◌<◌, Bool, true, false, ◌||◌, some, List, [], ◌∷◌, ◌++◌, ◌≡◌, ◌⊎◌, inl,
  inr, ◌∙◌, refl, sym, ap, arith, Text, same, same_refl, length, Bool-cases, All, any, any-append,
  map, subst, length-append,
}
use mathlib.Core.List.{map-append}
use jitenv.Paths.{dir, dot, slash}
use jitenv.Paths.Segments.{
  IsSegment, path_of, dir-path_of, dir_root, same-path_of, length-le-path_of,
}
use jitenv.Paths.Shrink.{dir-Above, dir-dot, dir-slash}
use jitenv.Config.Index.{Host, is_match, ancestor_loop, match_ancestor}

-- The element lists of a path's ancestors, from the root to the path itself.
abbrev pub inits : List Text → List (List Text)
inits [] = [] ∷ []
inits (w ∷ ws) = [] ∷ map (λ us. w ∷ us) (inits ws)

inits-append : (ws : List Text) (w : Text) → inits (ws ++ w ∷ []) ≡ inits ws ++ (ws ++ w ∷ []) ∷ []
inits-append [] w = refl
inits-append (v ∷ ws) w = rw (inits-append ws w, map-append)

snoc_cases : (ws : List Text) → (ws ≡ []) ⊎ ((us : List Text) × (w : Text) × (ws ≡ us ++ w ∷ []))
snoc_cases [] = inl refl
snoc_cases (v ∷ ws) = elim (snoc_cases ws) [
  | inl e ↦ inr ([], v, rw e)
  | inr (us, w, e) ↦ inr (v ∷ us, w, rw e)
]

All-init :
    (us : List Text) (w : Text) → All IsSegment (us ++ w ∷ []) → All IsSegment us × IsSegment w
All-init [] w h = (tt, h.0)
All-init (u ∷ us) w h = let (a, b) = All-init us w h.1 in ((h.0, a), b)

module _ (host : Host) (pattern : Text) where
  -- Two rounds are enough at a path that `path.Dir` leaves alone.
  loop_top :
      (f : ℕ) (p : Text) → dir p ≡ p → (b : Bool) × (ancestor_loop host (suc f) pattern p ≡ some b)
  unfolding ancestor_loop
  loop_top f p e = elim (Bool-cases (is_match (host.glob_match pattern p))) [
    | inl m ↦ (true, rw m)
    | inr m ↦ (false, rw (m, e, same_refl p))
  ]

  loop_up :
      (f : ℕ) (p : Text)
      → (b : Bool) × (ancestor_loop host f pattern (dir p) ≡ some b)
      → (b : Bool) × (ancestor_loop host (suc f) pattern p ≡ some b)
  unfolding ancestor_loop
  loop_up f p (b, e) = elim (Bool-cases (is_match (host.glob_match pattern p))) [
    | inl m ↦ (true, rw m)
    | inr m ↦ elim (Bool-cases (same (dir p) p)) [
      | inl s ↦ (false, rw (m, s))
      | inr s ↦ (b, rw (m, s, e))
    ]
  ]

  loop_total :
      (f : ℕ) (p : Text) → length p + 2 ≤ f → (b : Bool) × (ancestor_loop host f pattern p ≡ some b)
  loop_total zero p h = absurd (omega arith)
  loop_total (suc zero) p h = absurd (omega arith)
  loop_total (suc (suc f)) p h = elim (dir-Above p) [
    | inl e ↦ loop_up (suc f) p (rw e (loop_top f dot dir-dot))
    | inr (inl e) ↦ loop_up (suc f) p (rw e (loop_top f (slash ∷ []) dir-slash))
    | inr (inr l) ↦ loop_up (suc f) p (loop_total (suc f) (dir p) (omega arith))
  ]

  -- The loop ends within the fuel that it is given, for every path and every matcher.
  pub match_ancestor-total :
      (p : Text)
      → (b : Bool) × (ancestor_loop host (length p + 2) pattern p ≡ some b)
        × (match_ancestor host pattern p ≡ b)
  unfolding match_ancestor
  match_ancestor-total p = let (b, e) = loop_total (length p + 2) p (omega arith) in (b, e, rw e)

  -- the path with these elements matches
  abbrev pub matches_at : List Text → Bool
  matches_at ws = is_match (host.glob_match pattern (path_of ws))

  loop_root : (f : ℕ) → ancestor_loop host (suc f) pattern (path_of []) ≡ some (matches_at [])
  unfolding ancestor_loop
  loop_root f = rw (dir_root, same_refl (path_of [])) (ground arith)

  loop_snoc :
      (f : ℕ) (ws : List Text) (w : Text) (b : Bool)
      → All IsSegment ws
      → IsSegment w
      → ancestor_loop host f pattern (path_of ws) ≡ some b
      → ancestor_loop host (suc f) pattern (path_of (ws ++ w ∷ []))
        ≡ some (b || matches_at (ws ++ w ∷ []))
  unfolding ancestor_loop
  loop_snoc f ws w b h k e = rw (dir-path_of ws w h k, same-path_of ws w k, e) (ground arith)

  loop-any :
      (f : ℕ) (ws : List Text)
      → length ws < f
      → All IsSegment ws
      → ancestor_loop host f pattern (path_of ws) ≡ some (any matches_at (inits ws))
  loop-any zero ws l h = elim l [ ]
  loop-any (suc f) ws l h = elim (snoc_cases ws) [
    | inl e ↦ rw e (loop_root f ∙ ground arith)
    | inr (us, w, e) ↦
        let l' : length us < f =
          omega (arith, ap (length {A = Text}) e, length-append us (w ∷ [])) in
        let h' = All-init us w (subst (All IsSegment) e h) in
        rw e (
          loop_snoc f us w (any matches_at (inits us)) h'.0 h'.1 (loop-any f us l' h'.0)
          ∙ ap some
              (sym (rw (inits-append us w) (any-append matches_at (inits us) _ ∙ ground arith))))
  ]

  -- On a canonical absolute path `matchAncestor` says whether the pattern matches the path or any
  -- of its ancestors up to the root.
  pub match_ancestor-any :
      (ws : List Text)
      → All IsSegment ws
      → match_ancestor host pattern (path_of ws) ≡ any matches_at (inits ws)
  unfolding match_ancestor
  match_ancestor-any ws h =
      rw (loop-any (length (path_of ws) + 2) ws (omega (arith, length-le-path_of ws)) h)
