-- ===== src/Main/Confirm.antt =====
-- main.c: `app_confirm_wait` and `app_confirm_handler`, and dispatcher.c's
-- `authentication_delayed_handler`, which calls it. The event group is the list of the times, in
-- milliseconds from the start of the wait, at which bits were set; what a wait for a bit returns is
-- the parameter `wait_bits`.
use es_inverter.Base.{ℕ, not, List, [], ◌∷◌, ◌++◌, map, if◌then◌else◌, ◌==◌, bit_and}
use es_inverter.Rs232.Memory.{Outcome, done, fault, ◌>>=◌}
use es_inverter.Update.State.{
  Device, Effect, UpdateState, update_error_handler, update_send_installed_fw,
}

pub data StartAction : Type 0 where
  start_coredump mark_app_valid rollback_and_reboot : StartAction
  of_update : Effect → StartAction

abbrev pub tcp_auth_evt_bit : ℕ
tcp_auth_evt_bit = 1

abbrev pub img_pending_verify : ℕ
img_pending_verify = 1

abbrev pub image_confirm_timeout_ms : ℕ
image_confirm_timeout_ms = 60000

abbrev pub update_error_rolled_back : ℕ
update_error_rolled_back = 7

-- What the bootloader's library answers.
pub record Image : Type 0 where
  pub state_ret : ℕ
  pub ota_state : ℕ
  pub mark_valid_ret : ℕ
  pub rollback_ret : ℕ

-- The wait returned, or the rollback restarted the device.
pub data Ended : Type 0 where
  returned : UpdateState → Ended
  rolled_back : Ended

-- The bits set so far, with the times.
abbrev pub EventGroup : Type 0
EventGroup = List (ℕ × ℕ)

abbrev pub app_confirm_handler : ℕ → EventGroup → EventGroup
app_confirm_handler now group = group ++ ((now, tcp_auth_evt_bit) ∷ [])

abbrev pub authentication_delayed_handler : ℕ → EventGroup → List StartAction × EventGroup
authentication_delayed_handler now group = (start_coredump ∷ [], app_confirm_handler now group)

-- A rollback returns only when it fails, which changes nothing.
unfoldable pub app_confirm_wait :
    Device
    → (EventGroup → ℕ → ℕ)
    → Image
    → EventGroup
    → UpdateState
    → Outcome (List StartAction × Ended)
app_confirm_wait dev wait_bits image group s =
    let evt_bits : ℕ = wait_bits group image_confirm_timeout_ms in
    let rejected : Outcome (List StartAction × Ended) = do
      (effects, after) ← update_error_handler dev update_error_rolled_back s
      done (mark_app_valid ∷ map of_update effects, returned after)
    in let confirmed : Outcome (List StartAction × Ended) = do
      sent ← update_send_installed_fw dev s
      done (mark_app_valid ∷ map of_update sent, returned s)
      in if not (image.state_ret == 0)
        then fault
        else if not (image.ota_state == img_pending_verify)
        then done ([], returned s)
        else if bit_and evt_bits tcp_auth_evt_bit == 0
        then done
            (rollback_and_reboot ∷ [], if image.rollback_ret == 0 then rolled_back else returned s)
        else if not (image.mark_valid_ret == 0)
        then rejected
        else confirmed
