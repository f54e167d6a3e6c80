-- ===== src/Crypto/Values.antt =====
-- A decoded TOML value, Go's `map[string]any` with what it holds: internal/config/config.go keeps
-- the params of a source so, and internal/crypto/envelope.go walks them.
use jitenv.Base.{ℕ, Text}

mutual
  pub data Value : Type 0 where
    str : Text → Value
    table : Fields → Value
    array : Items → Value
    scalar : ℕ → Value

  pub data Fields : Type 0 where
    end : Fields
    field : Text → Value → Fields → Fields

  pub data Items : Type 0 where
    nil : Items
    cons : Value → Items → Items
