-- ===== src/Main/Timely.antt =====
-- main.c and dispatcher.c: when an image is confirmed.
use es_inverter.Base.{
  ℕ, ◌+◌, ◌≤◌, ◌≡◌, refl, ◌↔◌, ◌⊎◌, inl, inr, arith, false, List, [], ◌∷◌, ◌++◌, map, Bytes, ◌==◌,
  bit_and, ℤ, Bool-cases,
}
use es_inverter.Base.Masks.{bit_and-mask}
use es_inverter.Dispatcher.Handlers.{connection_status_handler}
use es_inverter.Dispatcher.World.{
  connection_status_msg, post_auth, schedule_authentication, Answers, World, Handled,
}
use es_inverter.Storage.Dump.{storage_set_device_unique_id}
use es_inverter.Storage.Nvs.{Nvs}
use es_inverter.Main.Confirm.{
  mark_app_valid, rollback_and_reboot, of_update, returned, rolled_back, EventGroup,
  app_confirm_wait, img_pending_verify, authentication_delayed_handler,
}
use es_inverter.Rs232.Memory.{Outcome-cases, done}
use es_inverter.Update.State.{Device, Effect, UpdateState, update_send_installed_fw}

-- The bit of the authentication was set no later than a time.
abbrev pub IsSetBy : EventGroup → ℕ → Type 0
IsSetBy [] time = ⊥
IsSetBy ((at, bits) ∷ rest) time =
    ((at ≤ time) × ((bit_and bits 1 == 0) ≡ false)) ⊎ IsSetBy rest time

-- A wait returns the bit just when it was set before the timeout.
abbrev pub IsWait : (EventGroup → ℕ → ℕ) → Type 0
IsWait wait_bits =
    (group : EventGroup) (timeout : ℕ)
    → ((bit_and (wait_bits group timeout) 1 == 0) ≡ false) ↔ IsSetBy group timeout

set_last : (group : EventGroup) (at time : ℕ) → at ≤ time → IsSetBy (group ++ ((at, 1) ∷ [])) time
set_last [] at time h = inl (h, refl)
set_last (first ∷ rest) at time h = inr (set_last rest at time h)

module _ (dev : Device) (wait_bits : EventGroup → ℕ → ℕ) where
  -- An image that waits to be verified, with the libraries' calls answered by ESP_OK: it is marked
  -- as valid and its version sent when the authentication came within a minute, and rolled back,
  -- which restarts the device, when it did not.
  pub app_confirm_wait_lem :
      (mark_valid_ret rollback_ret : ℕ) (group : EventGroup) (s : UpdateState) (sent : List Effect)
      → IsWait wait_bits
      → update_send_installed_fw dev s ≡ done sent
      → (IsSetBy group 60000
          × (app_confirm_wait dev wait_bits
                (record {
                  state_ret = 0;
                  ota_state = img_pending_verify;
                  mark_valid_ret = 0;
                  rollback_ret = rollback_ret;
                })
                group
                s
              ≡ done (mark_app_valid ∷ map of_update sent, returned s)))
        ⊎ ((¬ IsSetBy group 60000)
            × (app_confirm_wait dev wait_bits
                  (record {
                    state_ret = 0;
                    ota_state = img_pending_verify;
                    mark_valid_ret = mark_valid_ret;
                    rollback_ret = 0;
                  })
                  group
                  s
                ≡ done (rollback_and_reboot ∷ [], rolled_back)))
  unfolding app_confirm_wait
  app_confirm_wait_lem mark_valid_ret rollback_ret group s sent wait e =
      let law = wait group 60000 in
      elim (Bool-cases (bit_and (wait_bits group 60000) 1 == 0)) [
        | inr bit ↦ inl (law.0 bit, rw (bit, e) refl)
        | inl none_set ↦ inr (λ by. ground (arith, law.1 by), rw none_set refl)
      ]

module _ (nvs : Nvs) (crc32 : Bytes → ℕ) (dev : Device) (multiplier : ℤ) (divisor : ℕ)
    (a : Answers) where
  open nvs use {Flash}

  scheduled_delay :
      (u delay : ℕ) (w : World Flash) (r : Handled Flash)
      → connection_status_handler nvs crc32 dev multiplier divisor a (connection_status_msg u) w
        ≡ done r
      → r.actions ≡ post_auth u ∷ schedule_authentication delay ∷ []
      → delay ≤ 42767
  unfolding connection_status_handler
  scheduled_delay u delay w r e scheduled =
      let mask : bit_and a.random 0x7FFF ≤ 0x7FFF = bit_and-mask a.random 0x7FFF in
      elim (Outcome-cases (storage_set_device_unique_id nvs crc32 w.storage u)) [
        | inl f ↦ absurd (ground arith)
        | inr (set, q) ↦ ground arith
      ]

  -- A device that is told its id within 17.2 seconds of the start of the wait, less what the
  -- scheduler is late, confirms its image and sends its version when the handler's delay is over,
  -- whatever random number it draws.
  pub app_confirm_wait-connection_status_handler :
      (wait_bits : EventGroup → ℕ → ℕ) (u told delay late rollback_ret : ℕ) (w : World Flash)
      (r : Handled Flash) (s : UpdateState) (sent : List Effect)
      → IsWait wait_bits
      → told + late ≤ 17233
      → connection_status_handler nvs crc32 dev multiplier divisor a (connection_status_msg u) w
        ≡ done r
      → r.actions ≡ post_auth u ∷ schedule_authentication delay ∷ []
      → update_send_installed_fw dev s ≡ done sent
      → app_confirm_wait dev wait_bits
          (record {
            state_ret = 0;
            ota_state = img_pending_verify;
            mark_valid_ret = 0;
            rollback_ret = rollback_ret;
          })
          (authentication_delayed_handler (told + delay + late) []).1
          s
        ≡ done (mark_app_valid ∷ map of_update sent, returned s)
  unfolding app_confirm_wait
  app_confirm_wait-connection_status_handler wait_bits u told delay late rollback_ret w r s sent
        wait early handled scheduled e =
      let bound : delay ≤ 42767 = scheduled_delay u delay w r handled scheduled in
      let now : ℕ = told + delay + late in
      let bit = (wait ((now, 1) ∷ []) 60000).1 (set_last [] now 60000 (omega arith)) in
      rw (bit, e) refl
