-- ===== src/Config/Ids/Fresh.antt =====
-- Minted identifiers are well formed and new.
use jitenv.Base.{
  ℕ, zero, suc, ◌/◌, ◌%◌, ◌<◌, true, false, Option, none, some, List, [], ◌∷◌, ◌++◌, ok, ◌≡◌, sym,
  arith, inl, inr, Bool-cases, Text, has_prefix, length, take, All, All-append_left,
  All-append_right, contains_text,
}
use jitenv.Config.Ids.{is_hex, all_hex, is_id, hex_digit, hex, mint, new_id}

-- four bytes
abbrev pub IsBuffer : Option Text → Type 0
IsBuffer none = ⊥
IsBuffer (some buf) = (length buf ≡ 4) × All (λ b. b < 256) buf

hex_digit-hex : (n : ℕ) → n < 16 → is_hex (hex_digit n) ≡ true
hex_digit-hex n h = ground arith

-- six digits of four bytes
six :
    (buf : Text)
    → length buf ≡ 4
    → All (λ b. b < 256) buf
    → (length (take 6 (hex buf)) ≡ 6) × (all_hex (take 6 (hex buf)) ≡ true)
unfolding hex all_hex
six (a ∷ b ∷ c ∷ d ∷ []) l h = (
  omega arith,
  ground (
    arith,
    hex_digit-hex (a / 16),
    hex_digit-hex (a % 16),
    hex_digit-hex (b / 16),
    hex_digit-hex (b % 16),
    hex_digit-hex (c / 16),
    hex_digit-hex (c % 16),
  ),
)
six [] l h = absurd (omega arith)
six (a ∷ []) l h = absurd (omega arith)
six (a ∷ b ∷ []) l h = absurd (omega arith)
six (a ∷ b ∷ c ∷ []) l h = absurd (omega arith)
six (a ∷ b ∷ c ∷ d ∷ e ∷ r) l h = absurd (omega arith)

is_id-append :
    (p t : Text) → length p ≡ 2 → length t ≡ 6 → all_hex t ≡ true → is_id (p ++ t) p ≡ true
unfolding is_id has_prefix
is_id-append (a ∷ b ∷ []) t l h k = ground arith
is_id-append [] t l h k = absurd (omega arith)
is_id-append (a ∷ []) t l h k = absurd (omega arith)
is_id-append (a ∷ b ∷ c ∷ p) t l h k = absurd (omega arith)

mint-IsFresh :
    (n : ℕ) (prefix : Text) (taken : List Text) (rs : List (Option Text)) (id : Text)
    (rest : List (Option Text))
    → length prefix ≡ 2
    → All IsBuffer rs
    → mint n prefix taken rs ≡ ok (id, rest)
    → (is_id id prefix ≡ true) × (contains_text taken id ≡ false)
unfolding mint
mint-IsFresh zero prefix taken rs id rest l h e = absurd cc
mint-IsFresh (suc n) prefix taken [] id rest l h e = absurd cc
mint-IsFresh (suc n) prefix taken (none ∷ rs) id rest l h e = absurd h.0
mint-IsFresh (suc n) prefix taken (some buf ∷ rs) id rest l h e =
    elim (Bool-cases (contains_text taken (prefix ++ take 6 (hex buf)))) [
      | inl y ↦ mint-IsFresh n prefix taken rs id rest l h.1 (rw y at e)
      | inr y ↦
          let same : prefix ++ take 6 (hex buf) ≡ id = cc (rw y at e) in
          let (s, d) = six buf h.0.0 h.0.1 in
          (rw (← same) (is_id-append prefix _ l s d), rw (← same) y)
    ]

-- the identifier of the attempt that reads these bytes
abbrev pub candidate : Text → Option Text → Text
candidate prefix none = []
candidate prefix (some buf) = prefix ++ take 6 (hex buf)

mint-some :
    (n : ℕ) (prefix : Text) (taken : List Text) (before : List (Option Text)) (r : Option Text)
    (after : List (Option Text))
    → All IsBuffer before
    → IsBuffer r
    → length before < n
    → contains_text taken (candidate prefix r) ≡ false
    → (id : Text) × (rest : List (Option Text)) × (mint n prefix taken (before ++ (r ∷ after))
        ≡ ok (id, rest))
unfolding mint
mint-some zero prefix taken before r after h b l f = absurd (omega arith)
mint-some (suc n) prefix taken [] none after h b l f = absurd b
mint-some (suc n) prefix taken [] (some buf) after h b l f =
    (prefix ++ take 6 (hex buf), after, rw f)
mint-some (suc n) prefix taken (none ∷ bs) r after h b l f = absurd h.0
mint-some (suc n) prefix taken (some buf ∷ bs) r after h b l f =
    elim (Bool-cases (contains_text taken (prefix ++ take 6 (hex buf)))) [
      | inl y ↦ rw y (mint-some n prefix taken bs r after h.1 b (omega arith) f)
      | inr y ↦ (prefix ++ take 6 (hex buf), bs ++ (r ∷ after), rw y)
    ]

-- newID, with a prefix of two bytes and buffers that rand.Read fills: if one of the first 64 attempts
-- draws an identifier that is not taken, it gives one, which is well formed and not taken.
pub new_id_fresh :
    (prefix : Text) (taken : List Text) (before : List (Option Text)) (r : Option Text)
    (after : List (Option Text))
    → length prefix ≡ 2
    → All IsBuffer (before ++ (r ∷ after))
    → length before < 64
    → contains_text taken (candidate prefix r) ≡ false
    → (id : Text) × (rest : List (Option Text)) × (new_id prefix taken (before ++ (r ∷ after))
        ≡ ok (id, rest))
      × (is_id id prefix ≡ true)
      × (contains_text taken id ≡ false)
unfolding new_id
new_id_fresh prefix taken before r after l h few free =
    let (id, rest, e) =
      mint-some 64 prefix taken before r after (All-append_left IsBuffer before (r ∷ after) h)
        (All-append_right IsBuffer before (r ∷ after) h).0 few free in
    let (well, new) = mint-IsFresh 64 prefix taken (before ++ (r ∷ after)) id rest l h e in
    (id, rest, e, well, new)

-- a minted identifier is not in use, and starts with its prefix
mint_free :
    (n : ℕ) (prefix : Text) (taken : List Text) (rs : List (Option Text)) (id : Text)
    (rest : List (Option Text))
    → mint n prefix taken rs ≡ ok (id, rest)
    → (contains_text taken id ≡ false) × (t : Text) × (id ≡ prefix ++ t)
unfolding mint
mint_free zero prefix taken rs id rest e = absurd cc
mint_free (suc n) prefix taken [] id rest e = absurd cc
mint_free (suc n) prefix taken (none ∷ rs) id rest e = absurd cc
mint_free (suc n) prefix taken (some buf ∷ rs) id rest e =
    elim (Bool-cases (contains_text taken (prefix ++ take 6 (hex buf)))) [
      | inl y ↦ mint_free n prefix taken rs id rest (rw y at e)
      | inr y ↦
          let made : prefix ++ take 6 (hex buf) ≡ id = cc (rw y at e) in
          (rw (← made) y, take 6 (hex buf), sym made)
    ]

pub new_id_free :
    (prefix : Text) (taken : List Text) (rs : List (Option Text)) (id : Text)
    (rest : List (Option Text))
    → new_id prefix taken rs ≡ ok (id, rest)
    → (contains_text taken id ≡ false) × (t : Text) × (id ≡ prefix ++ t)
unfolding new_id
new_id_free prefix taken rs id rest e = mint_free 64 prefix taken rs id rest e
