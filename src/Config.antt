-- ===== src/Config.antt =====
-- internal/config/config.go: the decrypted configuration in memory. The index over its mappings is
-- in Config/Index, the structural checks in Config/Validate.
pub mod Index
pub mod Validate
pub mod Ids
pub mod Sealing
pub mod Renaming
pub mod Assigning
pub mod Warnings
pub mod Rekeyed
pub mod Encrypting
pub mod Retention
pub mod Migrating
use jitenv.Base.{ℕ, Bool, Option, List, Text, Assoc}
use jitenv.Crypto.Values.{Fields}

-- A variable of a mapping: a literal value, or a reference into a source.
pub record VarRef : Type 0 where
  pub name : Text
  pub source : Text
  pub ref : Text
  pub key : Text
  pub extra : Assoc Text
  pub value : Text

pub record Mapping : Type 0 where
  pub path : Text
  pub glob : Text
  pub cwd_glob : Text
  pub commands : List Text
  pub vars : List VarRef

pub record SourceConfig : Type 0 where
  pub type : Text
  pub params : Fields

-- Meta, Agent and IDMap are not part of this model.
pub record Config : Type 0 where
  pub version : ℕ
  pub sources : Assoc SourceConfig
  pub mappings : List Mapping
  pub secrets : Assoc (Assoc Text)
