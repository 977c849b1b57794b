-- ===== src/Host/Viper.antt =====
-- The configuration library: what it answers for each key.
use go_acme_store.Common.{ℕ, String, Bool}

-- The integers: `pos n` is n, and `negsuc n` is -(n + 1).
pub data ℤ : Type 0 where
  pos : ℕ → ℤ
  negsuc : ℕ → ℤ

pub record Viper : Type 0 where
  pub get_string : String → String
  pub get_bool : String → Bool
  pub is_set : String → Bool
  -- In nanoseconds.
  pub get_duration : String → ℤ
