-- ===== src/Launch/Shim/Chain.antt =====
-- The chain of programs that one command starts: what the first wrapper puts in the environment is
-- seen by the wrappers that its program starts.
use jitenv.Base.{
  true, false, none, some, List, [], ◌∷◌, ◌++◌, ◌≡◌, ◌⊎◌, sym, ◌∙◌, refl, ap, arith, inl, inr,
  Bool-cases, Text, codes, same, same_iff, is_empty, Assoc, lookup, Result, ok,
}
use jitenv.Launch.Environment.{
  Env, getenv, or_blank, has_key, started_after, started, warned_marker, injected_marker,
  session_nonce, differs, constant_time_eq, injection_already_applied, stamped, injected,
}
use jitenv.Launch.WrapDir.{look_path_excluding}
use jitenv.Launch.Shim.{
  World, agent_down, answered, Launched, fetched, self_dir, passes, asks, launched, unchanged, run,
}

lookup-append : (k : Text) (a b : Env) → lookup k a ≡ none → lookup k (a ++ b) ≡ lookup k b
unfolding lookup
lookup-append k [] b h = refl
lookup-append k ((j, v) ∷ a) b h = ground (arith, lookup-append k a b)

lookup-append_some :
    (k : Text) (a b : Env) (v : Text) → lookup k a ≡ some v → lookup k (a ++ b) ≡ some v
unfolding lookup
lookup-append_some k [] b v h = absurd cc
lookup-append_some k ((j, w) ∷ a) b v h = ground (arith, lookup-append_some k a b v)

lookup-started_after :
    (k : Text) (seen : List Text) (env : Env)
    → has_key seen k ≡ false
    → lookup k (started_after seen env) ≡ lookup k env
unfolding lookup started_after has_key
lookup-started_after k seen [] h = refl
lookup-started_after k seen ((j, v) ∷ env) h =
    ground
      (arith, same_iff j k, lookup-started_after k (j ∷ seen) env, lookup-started_after k seen env)

pub getenv-started : (k : Text) (env : Env) → getenv (started env) k ≡ getenv env k
unfolding getenv started has_key
getenv-started k env = ap or_blank (lookup-started_after k [] env refl)

differs_refl : (a : Text) → differs false a a ≡ false
differs_refl [] = refl
differs_refl (x ∷ a) = ground (arith, differs_refl a)

pub constant_time_eq_refl : (a : Text) → constant_time_eq a a ≡ true
unfolding constant_time_eq
constant_time_eq_refl a = ground (arith, differs_refl a)

applied_of_both :
    (env : Env) (v : Text)
    → getenv env injected_marker ≡ v
    → getenv env session_nonce ≡ v
    → is_empty v ≡ false
    → injection_already_applied env ≡ true
unfolding injection_already_applied
applied_of_both env v m n h = rw (m, n, h, constant_time_eq_refl v)

-- The next Go program can read a nonce: the shell gave one, or a new one is put where there was none.
abbrev pub HasNonce : Env → Assoc Text → Text → Type 0
HasNonce env extra fresh =
    ((v : Text) × (lookup session_nonce env ≡ some v) × (is_empty v ≡ false))
    ⊎ ((lookup session_nonce env ≡ none)
        × (lookup session_nonce extra ≡ none)
        × (is_empty fresh ≡ false))

getenv_of : (env : Env) (k v : Text) → lookup k env ≡ some v → getenv env k ≡ v
unfolding getenv
getenv_of env k v h = ap or_blank h

stamped_given :
    (env : Env) (v fresh : Text)
    → lookup session_nonce env ≡ some v
    → is_empty v ≡ false
    → stamped env fresh ≡ (injected_marker, v) ∷ []
unfolding stamped
stamped_given env v fresh h e = rw (getenv_of env session_nonce v h, e)

stamped_minted :
    (env : Env) (fresh : Text)
    → lookup session_nonce env ≡ none
    → stamped env fresh ≡ (session_nonce, fresh) ∷ (injected_marker, fresh) ∷ []
unfolding stamped getenv
stamped_minted env fresh h = rw h

lookup-injected :
    (k : Text) (env : Env) (extra : Assoc Text) (fresh : Text)
    → lookup k env ≡ none
    → lookup k extra ≡ none
    → lookup k (injected env extra fresh) ≡ lookup k (stamped env fresh)
unfolding injected
lookup-injected k env extra fresh h x =
    lookup-append k env (extra ++ stamped env fresh) h ∙ lookup-append k extra (stamped env fresh) x

getenv-injected :
    (k v : Text) (env : Env) (extra : Assoc Text) (fresh : Text)
    → lookup k (injected env extra fresh) ≡ some v
    → getenv (started (injected env extra fresh)) k ≡ v
getenv-injected k v env extra fresh h =
    getenv-started k (injected env extra fresh) ∙ getenv_of (injected env extra fresh) k v h

-- The next Go program reads the same value for the marker and the nonce, and it is not empty.
abbrev pub IsMarked : Env → Type 0
IsMarked env =
    (getenv env injected_marker ≡ getenv env session_nonce)
    × (is_empty (getenv env injected_marker) ≡ false)

of_both :
    (env : Env) (v : Text)
    → getenv env injected_marker ≡ v
    → getenv env session_nonce ≡ v
    → is_empty v ≡ false
    → IsMarked env
of_both env v m n h = (m ∙ sym n, rw m h)

injected-IsMarked :
    (env : Env) (extra : Assoc Text) (fresh : Text)
    → lookup injected_marker env ≡ none
    → lookup injected_marker extra ≡ none
    → HasNonce env extra fresh
    → IsMarked (started (injected env extra fresh))
unfolding injected lookup same
injected-IsMarked env extra fresh m x (inl (v, h, e)) =
    let marker : lookup injected_marker (injected env extra fresh) ≡ some v =
      lookup-injected injected_marker env extra fresh m x ∙ rw (stamped_given env v fresh h e) in
    let nonce : lookup session_nonce (injected env extra fresh) ≡ some v =
      lookup-append_some session_nonce env (extra ++ stamped env fresh) v h in
    of_both (started (injected env extra fresh)) v
      (getenv-injected injected_marker v env extra fresh marker)
      (getenv-injected session_nonce v env extra fresh nonce) e
injected-IsMarked env extra fresh m x (inr (h, g, e)) =
    let marker : lookup injected_marker (injected env extra fresh) ≡ some fresh =
      lookup-injected injected_marker env extra fresh m x ∙ rw (stamped_minted env fresh h) in
    let nonce : lookup session_nonce (injected env extra fresh) ≡ some fresh =
      lookup-injected session_nonce env extra fresh h g ∙ rw (stamped_minted env fresh h) in
    of_both (started (injected env extra fresh)) fresh
      (getenv-injected injected_marker fresh env extra fresh marker)
      (getenv-injected session_nonce fresh env extra fresh nonce) e

applied-IsMarked : (env : Env) → IsMarked env → injection_already_applied env ≡ true
applied-IsMarked env h = applied_of_both env (getenv env session_nonce) h.0 refl (rw (← h.0) h.1)

-- The wrapper gets the variables of the agent: it finds the command, no earlier wrapper of the chain
-- was there, and the agent answers, at once or after the unlocking.
pub record Injects (w : World) (name real : Text) (extra : Assoc Text) : Type 0 where
  pub found :
      look_path_excluding w.files (getenv w.env (codes "PATH")) name (self_dir w) ≡ some real
  pub first : passes w (self_dir w) ≡ false
  pub typed : asks w ≡ true
  pub answer : fetched w name ≡ ok (answered extra)
  pub unmarked : lookup injected_marker w.env ≡ none
  pub unnamed : lookup injected_marker extra ≡ none
  pub nonce : HasNonce w.env extra w.fresh

run-Injects :
    (w : World) (name real : Text) (args : List Text) (extra : Assoc Text)
    → Injects w name real extra
    → run w name args ≡ ok (launched w (self_dir w) real (name ∷ args) (answered extra))
unfolding run
run-Injects w name real args extra h = rw (h.found, h.first, h.typed, h.answer)

run-passes :
    (w : World) (name real : Text) (args : List Text)
    → look_path_excluding w.files (getenv w.env (codes "PATH")) name (self_dir w) ≡ some real
    → injection_already_applied w.env ≡ true
    → run w name args ≡ ok (unchanged w real (name ∷ args))
unfolding run
run-passes w name real args f a = rw (f, a)

launched_env :
    {E : Type 0} {a b : Launched} → ◌≡◌ {A = Result E Launched} (ok a) (ok b) → a.env ≡ b.env
launched_env h = cc

-- Let a wrapper get the variables of the agent, in an environment without a marker of an injection and
-- with variables that do not name it, and let there be a nonce that is not empty: that of the shell, or
-- a new one where neither the environment nor the variables name one. Then each wrapper that finds
-- its program and meets what a Go program makes of the environment passed to execve passes it on
-- unchanged: it adds no variable, asks no agent and prompts nobody, wherever it runs, and the marker
-- it passes on is the nonce, which is not empty.
pub run-chain :
    (w v : World) (name real name' real' : Text) (args args' : List Text) (extra : Assoc Text)
    (l : Launched)
    → Injects w name real extra
    → run w name args ≡ ok l
    → v.env ≡ started l.env
    → look_path_excluding v.files (getenv v.env (codes "PATH")) name' (self_dir v) ≡ some real'
    → (run v name' args'
        ≡ ok (record { path = real'; argv = name' ∷ args'; env = started l.env; mark = none }))
      × IsMarked (started l.env)
run-chain w v name real name' real' args args' extra l h e s f =
    let l_env = launched_env (sym (run-Injects w name real args extra h) ∙ e) in
    let marked : IsMarked (started l.env) =
      rw (← l_env) (injected-IsMarked w.env extra w.fresh h.unmarked h.unnamed h.nonce) in
    let applied : injection_already_applied v.env ≡ true = rw s (applied-IsMarked _ marked) in
    (rw (run-passes v name' real' args' f applied, s), marked)

run_down :
    (w : World) (name real : Text) (args : List Text)
    → look_path_excluding w.files (getenv w.env (codes "PATH")) name (self_dir w) ≡ some real
    → passes w (self_dir w) ≡ false
    → asks w ≡ true
    → fetched w name ≡ ok agent_down
    → run w name args ≡ ok (launched w (self_dir w) real (name ∷ args) agent_down)
unfolding run
run_down w name real args a b d e = rw (a, b, d, e)

warned_asks :
    (env : Env) (v : World)
    → lookup warned_marker env ≡ none
    → v.env ≡ started (env ++ (warned_marker, codes "1") ∷ [])
    → asks v ≡ false
unfolding lookup same
warned_asks env v h e =
    let set : getenv v.env warned_marker ≡ codes "1" = rw e (
      getenv-started warned_marker (env ++ (warned_marker, codes "1") ∷ [])
      ∙ getenv_of (env ++ (warned_marker, codes "1") ∷ []) warned_marker (codes "1")
          (lookup-append warned_marker env ((warned_marker, codes "1") ∷ []) h)) in
    rw set (ground arith)

run_quiet :
    (v : World) (name real : Text) (args : List Text)
    → look_path_excluding v.files (getenv v.env (codes "PATH")) name (self_dir v) ≡ some real
    → asks v ≡ false
    → run v name args ≡ ok (unchanged v real (name ∷ args))
unfolding run
run_quiet v name real args f q = elim (Bool-cases (passes v (self_dir v))) [
  | inl p ↦ rw (f, p)
  | inr p ↦ rw (f, p, q)
]

-- If the agent is down, the prompt was met and the command was not aborted, execve gets the
-- environment with the mark of the warning and no variable; and, if the environment did not have that
-- mark before, with any value, a wrapper that finds its program and meets what a Go program makes of
-- that environment passes it on unchanged, without a second prompt.
pub run-declined :
    (w v : World) (name real name' real' : Text) (args args' : List Text) (l : Launched)
    → look_path_excluding w.files (getenv w.env (codes "PATH")) name (self_dir w) ≡ some real
    → passes w (self_dir w) ≡ false
    → asks w ≡ true
    → fetched w name ≡ ok agent_down
    → lookup warned_marker w.env ≡ none
    → run w name args ≡ ok l
    → v.env ≡ started l.env
    → look_path_excluding v.files (getenv v.env (codes "PATH")) name' (self_dir v) ≡ some real'
    → (l.env ≡ w.env ++ (warned_marker, codes "1") ∷ [])
      × (run v name' args'
          ≡ ok (record { path = real'; argv = name' ∷ args'; env = started l.env; mark = none }))
run-declined w v name real name' real' args args' l found first typed down unwarned e s f =
    let l_env = launched_env (sym (run_down w name real args found first typed down) ∙ e) in
    let quiet : asks v ≡ false = warned_asks w.env v unwarned (s ∙ rw (← l_env)) in
    (sym l_env, rw (run_quiet v name' real' args' f quiet, s))
