-- ===== src/Launch/Shim/Search.antt =====
-- The search for the real command never gives what lies in the directory of the wrappers, and the
-- directory that is recovered from PATH lies under that of the agent.
use jitenv.Base.{
  true, false, some, List, [], ◌∷◌, ◌++◌, ◌≡◌, ◌≢◌, ◌⊎◌, refl, arith, ◌∙◌, inl, inr, Bool-cases,
  Option-cases, Text, contains_text, same, same_iff, same_refl, is_empty, any, has_prefix,
}
use jitenv.Paths.{slash, is_slash, abs, join_path, split_list}
use jitenv.Launch.WrapDir.{
  Files, is_wrap_dir_shape, is_recovered, find_in, find_wrap_dir_in_path, find_executable_in_dir,
  look_in, look_path_excluding,
}

-- An entry of PATH, absolute and other than the excluded directory, that has the command.
pub record Holds (files : Files) (ds : List Text) (name exclude c : Text) : Type 0 where
  pub entry : Text
  pub absolute : Text
  pub listed : contains_text ds entry ≡ true
  pub is_absolute : abs files.wd entry ≡ some absolute
  pub other : absolute ≢ exclude
  pub joined : c ≡ join_path entry name
  pub exists : files.exists c ≡ true
  pub no_dir : files.is_dir c ≡ false
  pub executable : files.is_executable c ≡ true

found_in_dir :
    (files : Files) (d name c : Text)
    → find_executable_in_dir files d name ≡ some c
    → (c ≡ join_path d name)
      × (files.exists c ≡ true)
      × (files.is_dir c ≡ false)
      × (files.is_executable c ≡ true)
unfolding find_executable_in_dir
found_in_dir files d name c h = elim (Bool-cases (files.exists (join_path d name))) [
  | inr a ↦ absurd (ground arith)
  | inl a ↦ elim (Bool-cases (files.is_dir (join_path d name))) [
    | inl b ↦ absurd (ground arith)
    | inr b ↦ elim (Bool-cases (files.is_executable (join_path d name))) [
      | inr e ↦ absurd (ground arith)
      | inl e ↦
          let same_c : c ≡ join_path d name = ground arith in
          (same_c, rw (same_c) a, rw (same_c) b, rw (same_c) e)
    ]
  ]
]

weaken :
    (files : Files) (d : Text) (ds : List Text) (name exclude c : Text)
    → Holds files ds name exclude c
    → Holds files (d ∷ ds) name exclude c
unfolding contains_text
weaken files d ds name exclude c h = record {
  entry = h.entry;
  absolute = h.absolute;
  listed = ground (arith, h.listed);
  is_absolute = h.is_absolute;
  other = h.other;
  joined = h.joined;
  exists = h.exists;
  no_dir = h.no_dir;
  executable = h.executable;
}

-- The rest of the directories stays to be searched, or the first of them has the command.
look_in-cons :
    (files : Files) (name exclude d : Text) (ds : List Text) (c : Text)
    → look_in files name exclude (d ∷ ds) ≡ some c
    → (look_in files name exclude ds ≡ some c)
      ⊎ ((a : Text) × (abs files.wd d ≡ some a)
          × (a ≢ exclude)
          × (find_executable_in_dir files d name ≡ some c))
unfolding look_in
look_in-cons files name exclude d ds c h = elim (Bool-cases (is_empty d)) [
  | inl e ↦ inl (rw e at h)
  | inr e ↦ elim (Option-cases (abs files.wd d)) [
    | inl n ↦ inl (rw (e, n) at h)
    | inr (a, s) ↦ elim (Bool-cases (same a exclude)) [
      | inl b ↦ inl (rw (e, s, b) at h)
      | inr b ↦ elim (Option-cases (find_executable_in_dir files d name)) [
        | inl f ↦ inl (rw (e, s, b, f) at h)
        | inr (x, f) ↦ inr (a, s, ground (arith, same_iff a exclude), f ∙ (rw (e, s, b, f) at h))
      ]
    ]
  ]
]

look_in-Holds :
    (files : Files) (name exclude : Text) (ds : List Text) (c : Text)
    → look_in files name exclude ds ≡ some c
    → Holds files ds name exclude c
unfolding look_in contains_text
look_in-Holds files name exclude [] c h = absurd cc
look_in-Holds files name exclude (d ∷ ds) c h = elim (look_in-cons files name exclude d ds c h) [
  | inl r ↦ weaken files d ds name exclude c (look_in-Holds files name exclude ds c r)
  | inr (a, s, o, f) ↦
      let (j, x, y, z) = found_in_dir files d name c f in
      record {
        entry = d;
        absolute = a;
        listed = rw (same_refl d);
        is_absolute = s;
        other = o;
        joined = j;
        exists = x;
        no_dir = y;
        executable = z;
      }
]

-- A bare name is looked up to a file of an entry of PATH that exists, is no directory and is
-- executable; and that entry, made absolute, is not the directory of the wrappers.
pub look_path_excluding-Holds :
    (files : Files) (path name exclude excluded c : Text)
    → any is_slash name ≡ false
    → abs files.wd exclude ≡ some excluded
    → look_path_excluding files path name exclude ≡ some c
    → Holds files (split_list path) name excluded c
unfolding look_path_excluding
look_path_excluding-Holds files path name exclude excluded c b a h =
    look_in-Holds files name excluded (split_list path) c (rw (b, a) at h)

recovered_under :
    (files : Files) (shells a : Text)
    → is_recovered files shells a ≡ true
    → (has_prefix (a ++ slash ∷ []) (shells ++ slash ∷ []) ≡ true)
      × (a ≢ shells)
      × (is_wrap_dir_shape a ≡ true)
unfolding is_recovered
recovered_under files shells a h =
    elim (Bool-cases (has_prefix (a ++ slash ∷ []) (shells ++ slash ∷ []))) [
      | inr p ↦ absurd (ground arith)
      | inl p ↦ elim (Bool-cases (same a shells)) [
        | inl q ↦ absurd (ground arith)
        | inr q ↦ elim (Bool-cases (is_wrap_dir_shape a)) [
          | inr r ↦ absurd (ground arith)
          | inl r ↦ (p, ground (arith, same_iff a shells), r)
        ]
      ]
    ]

find_in-under :
    (files : Files) (shells : Text) (ds : List Text)
    → is_empty (find_in files shells ds) ≡ false
    → (a : Text) × (find_in files shells ds ≡ a) × (is_recovered files shells a ≡ true)
unfolding find_in
find_in-under files shells [] h = absurd cc
find_in-under files shells (d ∷ ds) h = elim (Bool-cases (is_empty d)) [
  | inl e ↦ rw e (find_in-under files shells ds (rw e at h))
  | inr e ↦ elim (Option-cases (abs files.wd d)) [
    | inl n ↦ rw (e, n) (find_in-under files shells ds (rw (e, n) at h))
    | inr (a, s) ↦ elim (Bool-cases (is_recovered files shells a)) [
      | inl b ↦ rw (e, s, b) (a, refl, b)
      | inr b ↦ rw (e, s, b) (find_in-under files shells ds (rw (e, s, b) at h))
    ]
  ]
]

-- A directory of the wrappers that is recovered from PATH lies strictly below that of the agent, and
-- ends in the number of a process and `bin`.
pub find_wrap_dir_in_path-under :
    (files : Files) (shells shells_abs path : Text)
    → abs files.wd shells ≡ some shells_abs
    → is_empty (find_wrap_dir_in_path files (some shells) path) ≡ false
    → (a : Text) × (find_wrap_dir_in_path files (some shells) path ≡ a)
      × (has_prefix (a ++ slash ∷ []) (shells_abs ++ slash ∷ []) ≡ true)
      × (a ≢ shells_abs)
      × (is_wrap_dir_shape a ≡ true)
unfolding find_wrap_dir_in_path
find_wrap_dir_in_path-under files shells shells_abs path s h =
    let (a, e, r) = find_in-under files shells_abs (split_list path) (rw s at h) in
    let (p, q, t) = recovered_under files shells_abs a r in rw s (a, e, p, q, t)
