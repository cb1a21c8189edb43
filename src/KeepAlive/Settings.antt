-- ===== src/KeepAlive/Settings.antt =====
-- The settings of a keep-alive context.
use nabto_embedded_sdk.Base.{ℕ, ◌/◌, ◌≡◌, ◌≢◌, ◌↔◌, arith, some}
use nabto_embedded_sdk.KeepAlive.{
  KeepAlive, default_interval, default_retry_interval, init, reset, set_settings,
}

-- The number of polls in an interval belongs to the settings.
pub record IsConsistent (c : KeepAlive) : Type 0 where
  pub retry_nonzero : c.ka_retry_interval ≢ 0
  pub polls : c.n ≡ c.ka_interval / c.ka_retry_interval

-- A context is consistent after `init`, whatever it held.
init-IsConsistent : (c : KeepAlive) → IsConsistent (init c).0
unfolding init
init-IsConsistent c = omega arith

-- Settings that are accepted give a consistent context.
set_settings-IsConsistent :
    (c c' : KeepAlive) (i r m : ℕ) → set_settings c i r m ≡ some c' → IsConsistent c'
unfolding set_settings
set_settings-IsConsistent c c' i r m h = ground arith

-- `reset` after `set_settings` restores the default intervals and keeps the number of polls of the
-- former settings, so the context is consistent only if both give the same number.
pub reset-set_settings :
    (c c' : KeepAlive) (i r m : ℕ)
    → set_settings c i r m ≡ some c'
    → IsConsistent (reset c').0 ↔ (i / r ≡ default_interval / default_retry_interval)
unfolding set_settings reset
reset-set_settings c c' i r m h = (
  λ k. ground (arith, k.polls),
  λ e. record { retry_nonzero = ground arith; polls = ground arith },
)
