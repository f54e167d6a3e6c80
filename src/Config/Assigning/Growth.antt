-- ===== src/Config/Assigning/Growth.antt =====
-- Assigning adds identifiers to those in use, and the ones it gives have the prefix of their kind.
use jitenv.Base.{
  true, Option, none, some, List, [], ◌∷◌, ◌++◌, ok, ◌≡◌, refl, arith, inl, inr, Text, has_prefix,
  Assoc, lookup, contains_text,
}
use jitenv.Config.Ids.{new_id}
use jitenv.Config.Ids.Fresh.{new_id_free}
use jitenv.Config.Sealing.RoundTrip.{chained}
use jitenv.Config.Assigning.{Draws, Assigned, chosen, noted, assign}
use jitenv.Config.Assigning.Stable.{inserted-cases, minted_ok}
use jitenv.Config.Assigning.Prior.{IsWithin, GivesPrefix}

pub chosen-IsWithin :
    (prefix : Text) (taken : List Text) (left : Draws) (o : Option Text)
    (c : Text × List Text × Draws)
    → chosen prefix taken left o ≡ ok c
    → IsWithin taken c.1
unfolding contains_text
chosen-IsWithin prefix taken left (some id) c e x h =
    let one : (id, taken, left) ≡ c = cc in rw (← one) h
chosen-IsWithin prefix taken left none c e x h =
    let (new, grown) = minted_ok (new_id prefix taken left) taken c e in rw grown (ground arith)

prefix-has_prefix : (p t : Text) → has_prefix (p ++ t) p ≡ true
unfolding has_prefix
prefix-has_prefix [] t = refl
prefix-has_prefix (c ∷ p) t = ground (arith, prefix-has_prefix p t)

pub chosen-has_prefix :
    (prefix : Text) (taken : List Text) (left : Draws) (o : Option Text)
    (c : Text × List Text × Draws)
    → ((id : Text) → o ≡ some id → has_prefix id prefix ≡ true)
    → chosen prefix taken left o ≡ ok c
    → has_prefix c.0 prefix ≡ true
chosen-has_prefix prefix taken left (some id) c h e =
    let one : (id, taken, left) ≡ c = cc in rw (← one) (h id refl)
chosen-has_prefix prefix taken left none c h e =
    let (new, grown) = minted_ok (new_id prefix taken left) taken c e in
    let (free, t, made) = new_id_free prefix taken left c.0 c.2 new in
    rw made (prefix-has_prefix prefix t)

pub noted-GivesPrefix :
    (prefix name : Text) (st : Assigned) (c : Text × List Text × Draws)
    → GivesPrefix prefix st.ids
    → has_prefix c.0 prefix ≡ true
    → GivesPrefix prefix (noted name st c).ids
noted-GivesPrefix prefix name st c h p n id e = elim (inserted-cases name n c.0 id st.ids e) [
  | inl (a, b) ↦ rw (← b) p
  | inr (a, b) ↦ h n id b
]

-- What a loop over names adds to the identifiers in use, and the prefix of those that it gives.
pub assign-grows :
    (prefix : Text) (prior : Assoc Text) (names : List Text) (st st' : Assigned)
    → GivesPrefix prefix prior
    → GivesPrefix prefix st.ids
    → assign prefix prior names st ≡ ok st'
    → IsWithin st.taken st'.taken × GivesPrefix prefix st'.ids
unfolding assign
assign-grows prefix prior [] st st' h k e = let one : st ≡ st' = cc in rw (← one) (λ x t. t, k)
assign-grows prefix prior (name ∷ names) st st' h k e =
    let (c, e1, f) = chained (chosen prefix st.taken st.left (lookup name prior)) _ e in
    let p = chosen-has_prefix prefix st.taken st.left (lookup name prior) c (h name) e1 in
    let (g, q) =
      assign-grows prefix prior names (noted name st c) st' h
        (noted-GivesPrefix prefix name st c k p) f in
    (λ x t. g x (chosen-IsWithin prefix st.taken st.left (lookup name prior) c e1 x t), q)
