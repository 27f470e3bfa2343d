-- ===== src/Kbd/Scancode.antt =====
-- Presses, releases and the config byte.
use nova_exo.Base.{
  ℕ, ◌+◌, ◌/◌, ◌%◌, ◌<◌, ◌≡◌, refl, true, not, ◌&&◌, none, some, ◌==◌, bit, arith, holds_below,
}
use nova_exo.Kbd.{pressione, rilascio, enabled_config}

-- A key code below 128 is read back from its press and from its release, the code with bit 7; and a
-- scancode is never both a press and a release.
pub rilascio-pressione :
    (c : ℕ)
    → c < 128
    → (pressione c ≡ some c)
      × (rilascio c ≡ none)
      × (pressione (c + 128) ≡ none)
      × (rilascio (c + 128) ≡ some c)
unfolding pressione rilascio
rilascio-pressione c h = (ground arith, ground arith, ground arith, ground arith)

config_table :
    holds_below
      (λ c.
        bit (enabled_config c) 6
        && not (bit (enabled_config c) 4)
        && not (bit (enabled_config c) 0)
        && (enabled_config c / 2 % 8 == c / 2 % 8)
        && (enabled_config c / 32 % 2 == c / 32 % 2)
        && (enabled_config c / 128 == c / 128))
      256
    ≡ true
unfolding holds_below enabled_config
config_table = refl
