-- ===== src/Config/Encrypting/Coding.antt =====
-- A coding of one dictionary, which meets `NameCodecLaws`, for runs.
use jitenv.Base.{none, some, if◌then◌else◌, ◌≡◌, refl, inl, inr, Bool-cases, codes, same}
use jitenv.Agent.Protocol.{Codec}
use jitenv.Config.Ids.{NameMap}
use jitenv.Config.Renaming.{name_map_equal}
use jitenv.Config.Renaming.Equal.{HasMaps, name_map_equal-Agrees}
use jitenv.Config.Encrypting.Names.{NameCodecLaws}

abbrev pub coding : NameMap → Codec NameMap
coding names = record {
  marshal = λ nm. if name_map_equal names nm then some (codes "{}") else none;
  unmarshal = λ b. if same b (codes "{}") then some names else none;
}

pub coding_laws : (names : NameMap) → HasMaps names → NameCodecLaws (coding names)
unfolding same
coding_laws names distinct = record {
  read_back = λ nm b e. elim (Bool-cases (name_map_equal names nm)) [
    | inl s ↦
        let one : some (codes "{}") ≡ some b = rw s at e in
        let is_b : codes "{}" ≡ b = cc in
        (names, rw (← is_b) refl, name_map_equal-Agrees names nm distinct s)
    | inr s ↦ let no : none ≡ some b = rw s at e in absurd cc
  ];
  maps = λ b nm e. elim (Bool-cases (same b (codes "{}"))) [
    | inl s ↦
        let one : some names ≡ some nm = rw s at e in
        let is_nm : names ≡ nm = cc in rw (← is_nm) distinct
    | inr s ↦ let no : none ≡ some nm = rw s at e in absurd cc
  ];
}
