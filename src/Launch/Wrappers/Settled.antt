-- ===== src/Launch/Wrappers/Settled.antt =====
-- A directory that already has the wanted wrappers is left alone.
use jitenv.Base.{
  true, none, some, List, [], ◌∷◌, ◌≡◌, ◌≢◌, ◌∙◌, refl, arith, inl, inr, Bool-cases, Text,
  same_refl, contains_text, lookup, ok,
}
use jitenv.Launch.Wrappers.{
  Dir, Beyond, link, is_link_to, is_ours, State, sweep_step, sweep, add_step, add_missing, names,
  Disk, unchanged, reconcile,
}
use jitenv.Launch.Wrappers.Exact.{AreEntryNames, IsSettled}

listed : (d : Dir) (k : Text) → contains_text (names d) k ≡ true → lookup k d ≢ none
unfolding contains_text lookup
listed [] k h = absurd cc
listed ((n, e) ∷ d) k h = ground (arith, listed d k)

sweep_same :
    (wanted ns : List Text) (s : State)
    → ((k : Text) → contains_text ns k ≡ true → contains_text wanted k ≡ true)
    → sweep wanted ns s ≡ s
unfolding sweep sweep_step contains_text
sweep_same wanted [] s h = refl
sweep_same wanted (n ∷ ns) s h =
    let wanted_n : contains_text wanted n ≡ true = h n (rw (same_refl n)) in
    rw wanted_n (sweep_same wanted ns s (λ k c. h k (ground arith)))

add_same :
    (b : Beyond) (exe : Text) (ns : List Text) (s : State)
    → AreEntryNames ns
    → ((k : Text) → contains_text ns k ≡ true → is_link_to exe (lookup k s.dir) ≡ true)
    → add_missing b exe ns s ≡ ok s
unfolding add_missing add_step is_ours contains_text
add_same b exe [] s entries h = refl
add_same b exe (n ∷ ns) s entries h =
    let ours : is_link_to exe (lookup n s.dir) ≡ true = h n (rw (same_refl n)) in
    rw (entries.0, ours) (add_same b exe ns s entries.1 (λ k c. h k (ground arith)))

settled_sweep :
    (exe : Text) (d : Dir) (wanted : List Text)
    → IsSettled exe d wanted
    → sweep wanted (names d) (unchanged d) ≡ unchanged d
settled_sweep exe d wanted h = sweep_same wanted (names d) (unchanged d) λ k c.
    elim (Bool-cases (contains_text wanted k)) [
      | inl t ↦ t
      | inr f ↦ absurd (listed d k c (h k ∙ rw f))
    ]

settled_add :
    (b : Beyond) (exe : Text) (d : Dir) (wanted : List Text)
    → AreEntryNames wanted
    → IsSettled exe d wanted
    → add_missing b exe wanted (unchanged d) ≡ ok (unchanged d)
settled_add b exe d wanted entries h =
    add_same b exe wanted (unchanged d) entries
      λ k c. let at_k : lookup k d ≡ some (link exe) = h k ∙ rw c in rw at_k (same_refl exe)

-- A directory that has the wanted wrappers and nothing else is left as it is, and no change is
-- reported, if the disk lets it be read and made and each wanted command is the name of an entry.
pub reconcile-settled :
    (disk : Disk) (exe : Text) (d : Dir) (wanted : List Text)
    → disk.can_read ≡ true
    → disk.can_make ≡ true
    → disk.executable ≡ some exe
    → AreEntryNames wanted
    → IsSettled exe d wanted
    → reconcile disk (some d) wanted ≡ ok (some (unchanged d))
unfolding reconcile
reconcile-settled disk exe d [] r w x entries h = rw (r, settled_sweep exe d [] h)
reconcile-settled disk exe d (name ∷ wanted) r w x entries h = rw (
  w,
  x,
  r,
  settled_sweep exe d (name ∷ wanted) h,
  settled_add disk.beyond exe d (name ∷ wanted) entries h,
)
