-- ===== src/Config/Encrypting/Secrets.antt =====
-- The bags of secrets: what is sealed under the identifiers of bag and key has its names again.
use jitenv.Base.{some, [], ◌∷◌, ◌≡◌, Text, Assoc, lookup, All, length}
use jitenv.Crypto.Aead.{Cipher, CipherLaws, key_len}
use jitenv.Config.Ids.{NameMap}
use jitenv.Config.Sealing.{open_bag}
use jitenv.Config.Sealing.RoundTrip.{IsPlain}
use jitenv.Config.Renaming.{keys_in, name_of, named_keys}
use jitenv.Config.Rekeyed.Back.{IsDistinct, IsBack, Opens, mapped, rekey-mapped, mapped-IsDistinct}
use jitenv.Config.Assigning.{AssignedBags, keys_of}
use jitenv.Config.Assigning.Bags.{Covered}
use jitenv.Config.Encrypting.{id_in, seal_secrets}
use jitenv.Config.Encrypting.Params.{seal_secrets-Opens}
use jitenv.Config.Encrypting.Back.{Names, HasKey-Names, Names-IsBack}

-- the entries of a bag under the identifiers of its keys
abbrev pub with_ids : Assoc (Assoc Text) → Text → Assoc Text → Assoc Text
with_ids key_ids bag kv = mapped (id_in (keys_in bag key_ids)) (λ k v. v) kv

module _ (bs : AssignedBags) (nm : NameMap)
    (inverse : (bag n id : Text)
      → lookup n (keys_in bag bs.key_ids) ≡ some id
      → lookup id (keys_in bag nm.keys) ≡ some n)
    (bag_inverse : (n id : Text)
      → lookup n bs.bags.ids ≡ some id
      → lookup id nm.bags ≡ some n) where
  bag-IsBack :
      (bag : Text) (kv : Assoc Text)
      → IsDistinct (keys_of kv)
      → Covered bs (bag, kv)
      → IsBack
          (id_in bs.bags.ids)
          (with_ids bs.key_ids)
          (name_of nm.bags)
          (λ id m. named_keys (keys_in id nm.keys) m)
          (bag, kv)
  unfolding named_keys
  bag-IsBack bag kv d (id, at, all) =
      let names =
        HasKey-Names (keys_in id bs.key_ids) (keys_in id nm.keys) (keys_of kv) (inverse id) all in
      (
        rw (at, bag_inverse bag id at),
        rw at (
            rekey-mapped (id_in (keys_in id bs.key_ids)) (name_of (keys_in id nm.keys)) (λ i v. v)
              (λ i v. v) [] kv d
              (Names-IsBack (keys_in id bs.key_ids) (keys_in id nm.keys) kv names)),
      )

  pub bags-IsBack :
      (m : Assoc (Assoc Text))
      → All (λ p. IsDistinct (keys_of p.1)) m
      → All (Covered bs) m
      → All
          (IsBack
            (id_in bs.bags.ids)
            (with_ids bs.key_ids)
            (name_of nm.bags)
            (λ id m. named_keys (keys_in id nm.keys) m))
          m
  bags-IsBack [] d a = tt
  bags-IsBack ((bag, kv) ∷ m) d a = (bag-IsBack bag kv d.0 a.0, bags-IsBack m d.1 a.1)

  pub Covered-Names :
      (m : Assoc (Assoc Text)) → All (Covered bs) m → Names bs.bags.ids nm.bags (keys_of m)
  Covered-Names [] a = tt
  Covered-Names ((bag, kv) ∷ m) ((id, at, all), a) =
      (rw (at, bag_inverse bag id at), Covered-Names m a)

  -- the keys of a bag have different identifiers
  Covered-IsDistinct :
      (bag : Text) (kv : Assoc Text)
      → IsDistinct (keys_of kv)
      → Covered bs (bag, kv)
      → IsDistinct (keys_of (with_ids bs.key_ids (id_in bs.bags.ids bag) kv))
  Covered-IsDistinct bag kv d (id, at, all) = rw at (
      mapped-IsDistinct (id_in (keys_in id bs.key_ids)) (name_of (keys_in id nm.keys)) (λ k v. v) kv
        d (HasKey-Names (keys_in id bs.key_ids) (keys_in id nm.keys) (keys_of kv) (inverse id) all))

  module _ (c : Cipher) (laws : CipherLaws c) (key : Text) (size : length key ≡ key_len) where
    pub bags-Opens :
        (m : Assoc (Assoc Text))
        → All (λ p. IsDistinct (keys_of p.1)) m
        → All (λ p. All (λ q. IsPlain q.1) p.1) m
        → All (Covered bs) m
        → All
            (λ p.
              Opens
                (seal_secrets c key bs.key_ids)
                (open_bag c key)
                (with_ids bs.key_ids)
                (id_in bs.bags.ids p.0)
                p.1)
            m
    bags-Opens [] d p a = tt
    bags-Opens ((bag, kv) ∷ m) d p a = (
      seal_secrets-Opens c laws key size bs.key_ids (id_in bs.bags.ids bag) kv
          (Covered-IsDistinct bag kv d.0 a.0) p.0,
      bags-Opens m d.1 p.1 a.1,
    )
