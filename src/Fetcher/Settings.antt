-- ===== src/Fetcher/Settings.antt =====
-- The settings that `main` reads. A flag wins over the configuration.
use go_acme_store.Common.{
  ℕ, zero, suc, ◌*◌, ◌≤◌, ◌≡◌, ◌≢◌, refl, true, false, leb, ◌⊎◌, inl, inr, Bool-cases, String, Bool,
  not, ◌&&◌, ◌==◌, ltb, if◌then◌else◌, arith,
}
use go_acme_store.Host.Viper.{Viper, ℤ, pos, negsuc}

abbrev pub second : ℕ
second = 1000000000

-- The precedence of a flag with this default.
unfoldable pub text_setting : Viper → String → String → String → String
text_setting v key default flag =
    if (flag == default) && v.is_set key then v.get_string key else flag

unfoldable pub daemon_mode : Viper → Bool → Bool
daemon_mode v flag =
    if not flag && v.is_set "fetcher.daemon" then v.get_bool "fetcher.daemon" else flag

abbrev is_zero : ℤ → Bool
is_zero (pos n) = leb n 0
is_zero (negsuc n) = false

-- Is a duration shorter than `m` nanoseconds?
abbrev pub shorter : ℤ → ℕ → Bool
shorter (pos n) m = ltb n m
shorter (negsuc n) m = true

-- A duration that is not set is 0. Five minutes are the default, and half a minute is the least.
unfoldable pub check_interval : Viper → ℤ
check_interval v =
    let given = v.get_duration "fetcher.check_interval" in
    let interval = if is_zero given then pos (300 * second) else given in
    if shorter interval (30 * second) then pos (30 * second) else interval

-- The interval of the daemon's ticker is never less than half a minute, whatever signed duration
-- is configured. It is the configured one, or five minutes where that is zero or not set, or half
-- a minute where a duration other than zero is shorter than that, also a negative one.
pub check_interval_lem :
    (v : Viper)
    → let given = v.get_duration "fetcher.check_interval" in
      (n : ℕ) × (check_interval v ≡ pos n)
      × (30 * second ≤ n)
      × ((given ≡ pos n)
          ⊎ ((given ≡ pos 0) × (n ≡ 300 * second))
          ⊎ ((given ≢ pos 0) × (shorter given (30 * second) ≡ true) × (n ≡ 30 * second)))
unfolding check_interval
check_interval_lem v = cases (v.get_duration "fetcher.check_interval") refl
  where
    cases :
        (given : ℤ)
        → v.get_duration "fetcher.check_interval" ≡ given
        → (n : ℕ) × (check_interval v ≡ pos n)
          × (30 * second ≤ n)
          × ((v.get_duration "fetcher.check_interval" ≡ pos n)
              ⊎ ((v.get_duration "fetcher.check_interval" ≡ pos 0) × (n ≡ 300 * second))
              ⊎ ((v.get_duration "fetcher.check_interval" ≢ pos 0)
                  × (shorter (v.get_duration "fetcher.check_interval") (30 * second) ≡ true)
                  × (n ≡ 30 * second)))
    cases (negsuc k) e =
        (30 * second, ground arith, omega arith, inr (inr (λ z. ground arith, ground arith, refl)))
    cases (pos zero) e = (300 * second, ground arith, omega arith, inr (inl (e, refl)))
    cases (pos (suc k)) e = elim (Bool-cases (ltb (suc k) (30 * second))) [
      | inl short ↦ (
        30 * second,
        ground arith,
        omega arith,
        inr (inr (λ z. ground arith, ground arith, refl)),
      )
      | inr long ↦ (suc k, ground arith, ground arith, inl e)
    ]
