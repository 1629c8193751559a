-- ===== src/Main/Order.antt =====
-- main.c: when a start comes to its end, and what it has then done.
use es_inverter.Base.{ℕ, ◌≡◌, ◌⊎◌, ◌↔◌, inl, inr, arith, true, List, ◌∷◌, Bytes}
use es_inverter.Main.Boot.{Boot, BootStep, Booted, flash_init, flash_erase, app_main, common}
use es_inverter.Main.Confirm.{Image, EventGroup, app_confirm_wait}
use es_inverter.Rs232.Memory.{done, Outcome-cases}
use es_inverter.Storage.Dump.{State, storage_init}
use es_inverter.Storage.Nvs.{Nvs}
use es_inverter.Update.State.{Device, UpdateState}

-- The flash was ready at once, or after its partition was erased for one of the two reasons.
abbrev pub IsStarted : Boot → List BootStep → List BootStep → Type 0
IsStarted b common steps =
    ((b.flash_init_ret ≡ 0) × (steps ≡ flash_init ∷ common))
    ⊎ (((b.flash_init_ret ≡ 0x110d) ⊎ (b.flash_init_ret ≡ 0x1110))
        × (b.flash_erase_ret ≡ 0)
        × (b.flash_init_again_ret ≡ 0)
        × (steps ≡ flash_init ∷ flash_erase ∷ flash_init ∷ common))

-- The other calls of a start succeed.
pub record IsReady (b : Boot) : Type 0 where
  pub event_loop : b.event_loop_ret ≡ 0
  pub group : b.group_created ≡ true
  pub buttons : b.button_ret ≡ 0
  pub updates : b.ota_ret ≡ 0
  pub connection : b.tcp_ret ≡ 0
  pub scenes : b.led_ret ≡ 0
  pub shutdown : b.shutdown_ret ≡ 0

module _ (nvs : Nvs) (crc32 : Bytes → ℕ) (dev : Device) (wait_bits : EventGroup → ℕ → ℕ)
    (b : Boot) where
  open nvs use {Flash}

  -- What a start that comes to this end has done.
  abbrev pub Starts : Image → EventGroup → State Flash → UpdateState → Booted Flash → Type 0
  Starts image group cold update r =
      IsStarted b (common nvs crc32 dev wait_bits b) r.steps
      × IsReady b
      × (storage_init nvs crc32 cold ≡ done r.storage)
      × (app_confirm_wait dev wait_bits image group update ≡ done (r.actions, r.ended))

  app_main-Starts :
      (image : Image) (group : EventGroup) (cold : State Flash) (update : UpdateState)
      {r : Booted Flash}
      → app_main nvs crc32 dev wait_bits b image group cold update ≡ done r
      → Starts image group cold update r
  unfolding app_main
  app_main-Starts image group cold update {r} e =
      elim (Outcome-cases (storage_init nvs crc32 cold)) [
        | inl f ↦ absurd (ground arith)
        | inr (s, p) ↦ elim (Outcome-cases (app_confirm_wait dev wait_bits image group update)) [
          | inl f ↦ absurd (ground arith)
          | inr ((actions, after), q) ↦ (
            ground arith,
            record {
              event_loop = ground arith;
              group = ground arith;
              buttons = ground arith;
              updates = ground arith;
              connection = ground arith;
              scenes = ground arith;
              shutdown = ground arith;
            },
            ground arith,
            ground arith,
          )
        ]
      ]

  Starts-app_main :
      (image : Image) (group : EventGroup) (cold : State Flash) (update : UpdateState)
      (r : Booted Flash)
      → Starts image group cold update r
      → app_main nvs crc32 dev wait_bits b image group cold update ≡ done r
  unfolding app_main
  Starts-app_main image group cold update r (started, ready, stored, confirmed) = ground arith

  -- A start comes to the end of the wait for the confirmation just when the partition of the flash is
  -- ready, at once or after it was erased because the first try reported no free page or a newer
  -- format, and every other call of it succeeds. It has then made every step in the order of
  -- `common`.
  pub app_main_lem :
      (image : Image) (group : EventGroup) (cold : State Flash) (update : UpdateState)
      (r : Booted Flash)
      → (app_main nvs crc32 dev wait_bits b image group cold update ≡ done r)
        ↔ Starts image group cold update r
  app_main_lem image group cold update r =
      (app_main-Starts image group cold update {r = r}, Starts-app_main image group cold update r)
