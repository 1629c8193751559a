-- ===== src/Dispatcher/Identify.antt =====
-- led_scene_evt.c: which identify messages the LED can show.
use es_inverter.Base.{ℕ, ◌≤◌, ◌<◌, ◌≡◌, refl, ◌⊎◌, inl, inr, arith, [], ◌∷◌, Bytes, ℤ, Bool-cases}
use es_inverter.Dispatcher.Handlers.{ok_code, identify_scene, led_evt_identify_msg_handler}
use es_inverter.Dispatcher.World.{identify_msg, trigger_scene, Answers, World}
use es_inverter.Evt.Scenes.{accepts}
use es_inverter.Rs232.Memory.{done, fault}
use es_inverter.Storage.Nvs.{Nvs}
use es_inverter.Update.State.{Device}

-- A scene that blinks, once or periodically, with no repeat, or periodically with more repeats
-- than its 5 seconds hold.
abbrev pub IsFatal : ℕ → ℕ → Type 0
IsFatal mode count = ((mode ≡ 1) × (count ≡ 0)) ⊎ ((mode ≡ 2) × ((count ≡ 0) ⊎ (17 ≤ count)))

module _ (nvs : Nvs) (crc32 : Bytes → ℕ) (dev : Device) (multiplier : ℤ) (divisor : ℕ)
    (a : Answers) where
  open nvs use {Flash}

  -- An identify message, of a mode and a count of a byte each, restarts the device by a failed
  -- assertion just when it asks for blinking with no repeat, or for more than 16 repeats in each
  -- period; every other one triggers its scene, and nothing changes.
  pub led_evt_identify_msg_handler_lem :
      (mode count : ℕ) (w : World Flash)
      → mode < 256
      → count < 256
      → (IsFatal mode count
          × (led_evt_identify_msg_handler nvs crc32 dev multiplier divisor a
                (identify_msg mode count)
                w
              ≡ fault))
        ⊎ ((¬ IsFatal mode count)
            × (led_evt_identify_msg_handler nvs crc32 dev multiplier divisor a
                  (identify_msg mode count)
                  w
                ≡ done (record {
                  code = ok_code;
                  actions = trigger_scene (identify_scene mode count) ∷ [];
                  world = w;
                })))
  unfolding led_evt_identify_msg_handler
  led_evt_identify_msg_handler_lem mode count w hm hc =
      elim (Bool-cases (accepts (identify_scene mode count))) [
        | inl shown ↦ inr ((λ h. ground arith), rw shown refl)
        | inr refused ↦ inl (ground arith, rw refused refl)
      ]
