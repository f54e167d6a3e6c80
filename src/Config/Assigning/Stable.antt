-- ===== src/Config/Assigning/Stable.antt =====
-- Identifiers stay with their names, and no two names get the same one.
use jitenv.Base.{
  true, false, none, some, List, [], ◌∷◌, Result, ok, err, ◌≡◌, ◌∙◌, refl, sym, ap, arith, inl, inr,
  Bool-cases, Option-cases, Text, same, same_iff, same_refl, ◌⊎◌, Assoc, lookup, insert,
  lookup-insert, contains_text,
}
use jitenv.Config.Ids.{MintError, new_id}
use jitenv.Config.Ids.Fresh.{new_id_free}
use jitenv.Config.Sealing.RoundTrip.{chained}
use jitenv.Config.Assigning.{Draws, Assigned, chosen, minted, noted, assign, nothing}

-- What the prior reverse map promises: its identifiers are in use, each of them for one name.
pub record IsPrior (prior : Assoc Text) (taken : List Text) : Type 0 where
  pub used : (m id : Text) → lookup m prior ≡ some id → contains_text taken id ≡ true
  pub one : (m n id : Text) → lookup m prior ≡ some id → lookup n prior ≡ some id → m ≡ n

-- What the loop keeps.
pub record Keeps (prior : Assoc Text) (st : Assigned) : Type 0 where
  pub is_prior : IsPrior prior st.taken
  pub inverse : (n id : Text) → lookup n st.ids ≡ some id → lookup id st.names ≡ some n
  pub in_use : (n id : Text) → lookup id st.names ≡ some n → contains_text st.taken id ≡ true
  pub owner : (n m id : Text) → lookup id st.names ≡ some n → lookup m prior ≡ some id → m ≡ n
  pub stable : (n id j : Text) → lookup n st.ids ≡ some id → lookup n prior ≡ some j → id ≡ j

-- an entry of a map in which one was put
pub inserted-cases :
    (k x v y : Text) (m : Assoc Text)
    → lookup x (insert k v m) ≡ some y
    → ((k ≡ x) × (v ≡ y)) ⊎ ((same k x ≡ false) × (lookup x m ≡ some y))
inserted-cases k x v y m e = elim (Bool-cases (same k x)) [
  | inl s ↦
      let found : some v ≡ some y = sym (lookup-insert k x v m ∙ rw s) ∙ e in
      inl ((same_iff k x).0 s, cc)
  | inr s ↦ inr (s, sym (lookup-insert k x v m ∙ rw s) ∙ e)
]

pub lookup_put : (k v : Text) (m : Assoc Text) → lookup k (insert k v m) ≡ some v
lookup_put k v m = lookup-insert k k v m ∙ rw (same_refl k)

-- What makes an identifier one for the name.
record Fits (prior : Assoc Text) (st : Assigned) (name id : Text) (taken : List Text) : Type 0 where
  grows : (x : Text) → contains_text st.taken x ≡ true → contains_text taken x ≡ true
  taken_id : contains_text taken id ≡ true
  only : (n : Text) → lookup id st.names ≡ some n → name ≡ n
  prior_of : (m : Text) → lookup m prior ≡ some id → m ≡ name
  kept : (j : Text) → lookup name prior ≡ some j → id ≡ j

Keeps-noted :
    (prior : Assoc Text) (st : Assigned) (name id : Text) (taken : List Text) (left : Draws)
    → Keeps prior st
    → Fits prior st name id taken
    → Keeps prior (noted name st (id, taken, left))
Keeps-noted prior st name id taken left h f = record {
  is_prior = record { used = λ m i e. f.grows i (h.is_prior.used m i e); one = h.is_prior.one };
  inverse = λ n i at_n. elim (inserted-cases name n id i st.ids at_n) [
    | inl (a, b) ↦ rw (← a, ← b) (lookup_put id name st.names)
    | inr (a, b) ↦ elim (Bool-cases (same id i)) [
      | inl s ↦
          let same_id : id ≡ i = (same_iff id i).0 s in
          let owned : name ≡ n = f.only n (ap (λ k. lookup k st.names) same_id ∙ h.inverse n i b) in
          rw (← same_id, ← owned) (lookup_put id name st.names)
      | inr s ↦ lookup-insert id i name st.names ∙ (rw s (h.inverse n i b))
    ]
  ];
  in_use = λ n i at_i. elim (inserted-cases id i name n st.names at_i) [
    | inl (a, b) ↦ rw (← a) f.taken_id
    | inr (a, b) ↦ f.grows i (h.in_use n i b)
  ];
  owner = λ n m i at_i at_m. elim (inserted-cases id i name n st.names at_i) [
    | inl (a, b) ↦ f.prior_of m (at_m ∙ ap (λ x. some x) (sym a)) ∙ b
    | inr (a, b) ↦ h.owner n m i b at_m
  ];
  stable = λ n i j at_n at_j. elim (inserted-cases name n id i st.ids at_n) [
    | inl (a, b) ↦ sym b ∙ f.kept j (ap (λ x. lookup x prior) a ∙ at_j)
    | inr (a, b) ↦ h.stable n i j b at_j
  ];
}

reused-Fits :
    (prior : Assoc Text) (st : Assigned) (name id : Text)
    → Keeps prior st
    → lookup name prior ≡ some id
    → Fits prior st name id st.taken
reused-Fits prior st name id h e = record {
  grows = λ x t. t;
  taken_id = h.is_prior.used name id e;
  only = λ n at. h.owner n name id at e;
  prior_of = λ m a. h.is_prior.one m name id a e;
  kept = λ j a. let s : some id ≡ some j = sym e ∙ a in cc;
}

minted-Fits :
    (prior : Assoc Text) (st : Assigned) (name id : Text)
    → Keeps prior st
    → lookup name prior ≡ none
    → contains_text st.taken id ≡ false
    → Fits prior st name id (id ∷ st.taken)
unfolding contains_text
minted-Fits prior st name id h e free = record {
  grows = λ x t. ground arith;
  taken_id = rw (same_refl id);
  only = λ n at. let t : true ≡ false = sym (h.in_use n id at) ∙ free in absurd cc;
  prior_of = λ m a. let t : true ≡ false = sym (h.is_prior.used m id a) ∙ free in absurd cc;
  kept = λ j a. let t : none ≡ some j = sym e ∙ a in absurd cc;
}

pub minted_ok :
    (r : Result MintError (Text × Draws)) (taken : List Text) (c : Text × List Text × Draws)
    → minted r taken ≡ ok c
    → (r ≡ ok (c.0, c.2)) × (c.1 ≡ c.0 ∷ taken)
minted_ok (err e) taken c h = absurd cc
minted_ok (ok (id, left)) taken c h =
    let same_c : (id, id ∷ taken, left) ≡ c = cc in rw (← same_c) (refl, refl)

pub chosen-Keeps :
    (prefix : Text) (prior : Assoc Text) (st : Assigned) (name : Text)
    (c : Text × List Text × Draws)
    → Keeps prior st
    → chosen prefix st.taken st.left (lookup name prior) ≡ ok c
    → Keeps prior (noted name st c)
chosen-Keeps prefix prior st name c h e = elim (Option-cases (lookup name prior)) [
  | inr (id, s) ↦
      let made : ok (id, st.taken, st.left) ≡ ok c = sym (rw s) ∙ e in
      let same_c : (id, st.taken, st.left) ≡ c = cc in
      rw (← same_c)
        (Keeps-noted prior st name id st.taken st.left h (reused-Fits prior st name id h s))
  | inl s ↦
      let (new, grown) = minted_ok (new_id prefix st.taken st.left) st.taken c (rw s at e) in
      let (free, t, p) = new_id_free prefix st.taken st.left c.0 c.2 new in
      Keeps-noted prior st name c.0 c.1 c.2 h (rw grown (minted-Fits prior st name c.0 h s free))
]

pub assign-Keeps :
    (prefix : Text) (prior : Assoc Text) (names : List Text) (st st' : Assigned)
    → Keeps prior st
    → assign prefix prior names st ≡ ok st'
    → Keeps prior st'
unfolding assign
assign-Keeps prefix prior [] st st' h e = let s : st ≡ st' = cc in rw (← s) h
assign-Keeps prefix prior (name ∷ names) st st' h e =
    let (c, e1, f) = chained (chosen prefix st.taken st.left (lookup name prior)) _ e in
    assign-Keeps prefix prior names (noted name st c) st' (chosen-Keeps prefix prior st name c h e1)
      f

-- The name has an identifier.
abbrev pub HasId : Text → Assigned → Type 0
HasId n st = (id : Text) × (lookup n st.ids ≡ some id)

noted-HasId :
    (n name : Text) (st : Assigned) (c : Text × List Text × Draws)
    → HasId n st
    → HasId n (noted name st c)
noted-HasId n name st c (id, e) = elim (Bool-cases (same name n)) [
  | inl s ↦ (c.0, lookup-insert name n c.0 st.ids ∙ rw s)
  | inr s ↦ (id, lookup-insert name n c.0 st.ids ∙ (rw s e))
]

new-HasId :
    (n name : Text) (st : Assigned) (c : Text × List Text × Draws)
    → same name n ≡ true
    → HasId n (noted name st c)
new-HasId n name st c s = (c.0, lookup-insert name n c.0 st.ids ∙ rw s)

pub assign-HasId :
    (prefix : Text) (prior : Assoc Text) (n : Text) (names : List Text) (st st' : Assigned)
    → HasId n st ⊎ (contains_text names n ≡ true)
    → assign prefix prior names st ≡ ok st'
    → HasId n st'
unfolding assign contains_text
assign-HasId prefix prior n [] st st' (inl h) e = let s : st ≡ st' = cc in rw (← s) h
assign-HasId prefix prior n [] st st' (inr h) e = absurd cc
assign-HasId prefix prior n (name ∷ names) st st' (inl h) e =
    let (c, e1, f) = chained (chosen prefix st.taken st.left (lookup name prior)) _ e in
    assign-HasId prefix prior n names (noted name st c) st' (inl (noted-HasId n name st c h)) f
assign-HasId prefix prior n (name ∷ names) st st' (inr h) e =
    let (c, e1, f) = chained (chosen prefix st.taken st.left (lookup name prior)) _ e in
    elim (Bool-cases (same name n)) [
      | inl s ↦
          assign-HasId prefix prior n names (noted name st c) st' (inl (new-HasId n name st c s)) f
      | inr s ↦ assign-HasId prefix prior n names (noted name st c) st' (inr (rw s at h)) f
    ]

pub nothing-Keeps :
    (prior : Assoc Text) (taken : List Text) (left : Draws)
    → IsPrior prior taken
    → Keeps prior (nothing taken left)
unfolding lookup
nothing-Keeps prior taken left h = record {
  is_prior = h;
  inverse = λ n i e. absurd cc;
  in_use = λ n i e. absurd cc;
  owner = λ n m i e f. absurd cc;
  stable = λ n i j e f. absurd cc;
}

-- If the identifiers are given, each of the names has one that the new dictionary gives the name of, so
-- that no two names share one; and a name of the prior dictionary keeps the identifier that it had.
pub assign-stable :
    (prefix : Text) (prior : Assoc Text) (taken : List Text) (left : Draws) (names : List Text)
    (st : Assigned) (n : Text)
    → IsPrior prior taken
    → assign prefix prior names (nothing taken left) ≡ ok st
    → contains_text names n ≡ true
    → (id : Text) × (lookup n st.ids ≡ some id)
      × (lookup id st.names ≡ some n)
      × ((lookup n prior ≡ none) ⊎ (lookup n prior ≡ some id))
assign-stable prefix prior taken left names st n p e c =
    let h =
      assign-Keeps prefix prior names (nothing taken left) st (nothing-Keeps prior taken left p)
        e in
    let (id, at_n) = assign-HasId prefix prior n names (nothing taken left) st (inr c) e in
    (
      id,
      at_n,
      h.inverse n id at_n,
      elim (Option-cases (lookup n prior)) [
        | inl s ↦ inl s
        | inr (j, s) ↦ inr (rw (h.stable n id j at_n s) s)
      ],
    )
