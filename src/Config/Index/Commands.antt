-- ===== src/Config/Index/Commands.antt =====
-- `CwdCommands` against the entries of the index and against `LookupCwd`.
use jitenv.Base.{
  Bool, true, false, ◌&&◌, ◌||◌, List, [], ◌∷◌, ◌++◌, ◌≡◌, ◌∙◌, inl, inr, refl, arith, Text,
  same_iff, contains_text, contains_text-append, is_empty, Bool-cases, any,
}
use jitenv.Config.Index.{
  Host, Index, CwdGlobEntry, abs_or, match_ancestor, add_commands, cwd_commands_loop, cwd_commands,
  cwd_vars, lookup_cwd, mapped_cwd,
}

-- No text stands twice.
abbrev pub Distinct : List Text → Type 0
Distinct [] = Unit
Distinct (c ∷ cs) = (contains_text cs c ≡ false) × Distinct cs

contains-add_commands :
    (out cs : List Text) (c : Text)
    → contains_text (add_commands out cs) c ≡ (contains_text out c || contains_text cs c)
unfolding add_commands
contains-add_commands out [] c = unfold contains_text in ground arith
contains-add_commands out (d ∷ cs) c = elim (Bool-cases (contains_text out d)) [
  | inl e ↦
      rw e (contains-add_commands out cs c ∙ unfold contains_text in ground (arith, same_iff d c))
  | inr e ↦ rw e (
      contains-add_commands (out ++ d ∷ []) cs c
      ∙ rw (contains_text-append out (d ∷ []) c) (unfold contains_text in ground arith))
]

Distinct-append :
    (out : List Text) (c : Text)
    → Distinct out
    → contains_text out c ≡ false
    → Distinct (out ++ c ∷ [])
unfolding contains_text
Distinct-append [] c d h = (refl, tt)
Distinct-append (x ∷ out) c d h = (
  contains_text-append out (c ∷ []) x ∙ ground (arith, same_iff c x, same_iff x c),
  Distinct-append out c d.1 (ground arith),
)

Distinct-add_commands : (out cs : List Text) → Distinct out → Distinct (add_commands out cs)
unfolding add_commands
Distinct-add_commands out [] d = d
Distinct-add_commands out (c ∷ cs) d = elim (Bool-cases (contains_text out c)) [
  | inl e ↦ rw e (Distinct-add_commands out cs d)
  | inr e ↦ rw e (Distinct-add_commands (out ++ c ∷ []) cs (Distinct-append out c d e))
]

module _ (host : Host) where
  -- the entry wraps the command at `p` or below
  abbrev pub wraps : Text → Text → CwdGlobEntry → Bool
  wraps p c e = match_ancestor host e.pattern p && contains_text e.commands c

  contains-loop :
      (p c : Text) (out : List Text) (es : List CwdGlobEntry)
      → contains_text (cwd_commands_loop host p out es) c
        ≡ (contains_text out c || any (wraps p c) es)
  unfolding cwd_commands_loop
  contains-loop p c out [] = ground arith
  contains-loop p c out (e ∷ es) = elim (Bool-cases (match_ancestor host e.pattern p)) [
    | inl m ↦ rw m (
        contains-loop p c (add_commands out e.commands) es
        ∙ rw (contains-add_commands out e.commands c) (ground arith))
    | inr m ↦ rw m (contains-loop p c out es)
  ]

  Distinct-loop :
      (p : Text) (out : List Text) (es : List CwdGlobEntry)
      → Distinct out
      → Distinct (cwd_commands_loop host p out es)
  unfolding cwd_commands_loop
  Distinct-loop p out [] d = d
  Distinct-loop p out (e ∷ es) d = elim (Bool-cases (match_ancestor host e.pattern p)) [
    | inl m ↦
        rw m (
          Distinct-loop p (add_commands out e.commands) es (Distinct-add_commands out e.commands d))
    | inr m ↦ rw m (Distinct-loop p out es d)
  ]

  -- `CwdCommands` lists each command of the entries that match the directory or an ancestor, no
  -- other, and none twice.
  pub contains-cwd_commands :
      (idx : Index) (pwd : Text)
      → Distinct (cwd_commands host idx pwd)
        × ((c : Text)
            → contains_text (cwd_commands host idx pwd) c
              ≡ any (wraps (abs_or host pwd) c) idx.cwd_globs)
  unfolding cwd_commands
  contains-cwd_commands idx pwd = (
    Distinct-loop (abs_or host pwd) [] idx.cwd_globs tt,
    λ c. contains-loop (abs_or host pwd) c [] idx.cwd_globs ∙ unfold contains_text in refl,
  )

  cwd_vars-any :
      (p c : Text) (es : List CwdGlobEntry)
      → is_empty (cwd_vars host p c es) ≡ false
      → any (wraps p c) es ≡ true
  unfolding cwd_vars
  cwd_vars-any p c [] h = cc
  cwd_vars-any p c (e ∷ es) h = ground (arith, cwd_vars-any p c es)

  -- A command with variables to inject in a directory is among those that get a wrapper there.
  pub mapped_cwd-contains :
      (idx : Index) (pwd c : Text)
      → mapped_cwd host idx pwd c ≡ true
      → contains_text (cwd_commands host idx pwd) c ≡ true
  unfolding mapped_cwd lookup_cwd
  mapped_cwd-contains idx pwd c h =
      (contains-cwd_commands idx pwd).1 c
      ∙ cwd_vars-any (abs_or host pwd) c idx.cwd_globs (ground arith)
