-- ===== src/Agent/Resolver/Values.antt =====
-- Which value the environment has for a name.
use jitenv.Base.{
  not, Option, none, some, List, [], ◌∷◌, ◌++◌, if◌then◌else◌, Result, ok, err, ◌>>=◌, ◌≡◌, inl,
  inr, refl, sym, ap, ◌∙◌, arith, Text, same, is_empty, Assoc, lookup, insert, lookup-insert,
  Bool-cases,
}
use jitenv.Config.{VarRef}
use jitenv.Agent.Source.{FetchError, Source}
use jitenv.Agent.Resolver.{
  ResolveError, pick_value, insert_all, assign, fetched, from_source, fetch_var, fetch_vars,
}

-- the first of two
abbrev pub or_else : Option Text → Option Text → Option Text
or_else none o = o
or_else (some v) o = some v

-- the last pair of the list with the name
abbrev pub last_of : Text → Assoc Text → Option Text
last_of n [] = none
last_of n ((k, v) ∷ ps) = or_else (last_of n ps) (if same k n then some v else none)

-- The pairs that a variable gives, without the map they are put in: the literal, all that the source
-- answers, or the one value that is picked, under the variable's name.
abbrev pub answer_pairs : VarRef → Result FetchError (Assoc Text) → Assoc Text
answer_pairs v (err e) = []
answer_pairs v (ok raw) =
    if is_empty v.name
    then raw
    else elim (pick_value v.name raw v.key) [ ok x ↦ (v.name, x) ∷ [] | err e ↦ [] ]

abbrev pub source_pairs : VarRef → Option Source → Assoc Text
source_pairs v none = []
source_pairs v (some s) =
    answer_pairs v (s.fetch (record { id = v.ref; key = v.key; extra = v.extra }))

abbrev pub pairs : Assoc Source → VarRef → Assoc Text
pairs ss v =
    if not (is_empty v.value) then (v.name, v.value) ∷ [] else source_pairs v (lookup v.source ss)

abbrev pub all_pairs : Assoc Source → List VarRef → Assoc Text
all_pairs ss [] = []
all_pairs ss (v ∷ vs) = pairs ss v ++ all_pairs ss vs

last_of-append :
    (n : Text) (ps qs : Assoc Text) → last_of n (ps ++ qs) ≡ or_else (last_of n qs) (last_of n ps)
last_of-append n [] qs = ground arith
last_of-append n ((k, v) ∷ ps) qs = ground (arith, last_of-append n ps qs)

lookup-insert_all :
    (n : Text) (raw out : Assoc Text)
    → lookup n (insert_all raw out) ≡ or_else (last_of n raw) (lookup n out)
unfolding insert_all
lookup-insert_all n [] out = refl
lookup-insert_all n ((k, v) ∷ raw) out =
    lookup-insert_all n raw (insert k v out) ∙ rw (lookup-insert k n v out) (ground arith)

-- `out` with the pairs over it
abbrev Over : Assoc Text → Assoc Text → Assoc Text → Type 0
Over out ps next = (n : Text) → lookup n next ≡ or_else (last_of n ps) (lookup n out)

Over-one : (k v : Text) (out : Assoc Text) → Over out ((k, v) ∷ []) (insert k v out)
Over-one k v out n = lookup-insert k n v out ∙ ground arith

named-Over :
    (out : Assoc Text) (k : Text) (r : Result ResolveError Text) (next : Assoc Text)
    → (r >>= λ val. ok (insert k val out)) ≡ ok next
    → Over out (elim r [ ok x ↦ (k, x) ∷ [] | err e ↦ [] ]) next
named-Over out k (err e) next h n = absurd cc
named-Over out k (ok x) next h n =
    let made : insert k x out ≡ next = cc in ap (lookup n) (sym made) ∙ Over-one k x out n

assign-Over :
    (out : Assoc Text) (v : VarRef) (raw next : Assoc Text)
    → assign out v raw ≡ ok next
    → Over out (answer_pairs v (ok raw)) next
assign-Over out v raw next h n = elim (Bool-cases (is_empty v.name)) [
  | inl y ↦
      let made : insert_all raw out ≡ next = cc (rw y at h) in
      rw y (ap (lookup n) (sym made) ∙ lookup-insert_all n raw out)
  | inr y ↦ rw y (named-Over out v.name (pick_value v.name raw v.key) next (rw y at h) n)
]

fetched-Over :
    (out : Assoc Text) (v : VarRef) (r : Result FetchError (Assoc Text)) (next : Assoc Text)
    → fetched out v r ≡ ok next
    → Over out (answer_pairs v r) next
fetched-Over out v (err e) next h = absurd cc
fetched-Over out v (ok raw) next h = assign-Over out v raw next h

from_source-Over :
    (out : Assoc Text) (v : VarRef) (o : Option Source) (next : Assoc Text)
    → from_source out v o ≡ ok next
    → Over out (source_pairs v o) next
from_source-Over out v none next h = absurd cc
from_source-Over out v (some s) next h = fetched-Over out v _ next h

module _ (ss : Assoc Source) where
  fetch_var-Over :
      (out : Assoc Text) (v : VarRef) (next : Assoc Text)
      → fetch_var ss out v ≡ ok next
      → Over out (pairs ss v) next
  unfolding fetch_var
  fetch_var-Over out v next h n = elim (Bool-cases (is_empty v.value)) [
    | inl y ↦ rw y (from_source-Over out v (lookup v.source ss) next (rw y at h) n)
    | inr y ↦
        let made : insert v.name v.value out ≡ next = cc (rw y at h) in
        rw y (ap (lookup n) (sym made) ∙ Over-one v.name v.value out n)
  ]

  then-Over :
      (out : Assoc Text) (v : VarRef) (vs : List VarRef) (env : Assoc Text)
      (r : Result ResolveError (Assoc Text))
      → fetch_var ss out v ≡ r
      → (r >>= λ next. fetch_vars ss next vs) ≡ ok env
      → ((next : Assoc Text) → fetch_vars ss next vs ≡ ok env → Over next (all_pairs ss vs) env)
      → Over out (pairs ss v ++ all_pairs ss vs) env
  then-Over out v vs env (err e) f h rest n = absurd cc
  then-Over out v vs env (ok next) f h rest n =
      rw
        (
          last_of-append n (pairs ss v) (all_pairs ss vs),
          rest next h n,
          fetch_var-Over out v next f n,
        )
        (ground arith)

  fetch_vars-Over :
      (out : Assoc Text) (vs : List VarRef) (env : Assoc Text)
      → fetch_vars ss out vs ≡ ok env
      → Over out (all_pairs ss vs) env
  unfolding fetch_vars
  fetch_vars-Over out [] env h n = let made : out ≡ env = cc in ap (lookup n) (sym made)
  fetch_vars-Over out (v ∷ vs) env h n =
      then-Over out v vs env (fetch_var ss out v) refl h (λ next. fetch_vars-Over next vs env) n

  or_else-none : (o : Option Text) → or_else o none ≡ o
  or_else-none none = refl
  or_else-none (some v) = refl

  -- If the fetch of a list of variables succeeds, the environment has for each name the value of
  -- the last pair with that name among those that the variables give, in their order: a literal,
  -- all that the source answers for a variable without a name, or the one value that is picked.
  pub lookup-fetch_vars :
      (vs : List VarRef) (env : Assoc Text)
      → fetch_vars ss [] vs ≡ ok env
      → (n : Text) → lookup n env ≡ last_of n (all_pairs ss vs)
  unfolding lookup
  lookup-fetch_vars vs env h n = fetch_vars-Over [] vs env h n ∙ or_else-none _
