-- ===== src/Main/Waits.antt =====
-- main.c: `app_confirm_wait` leaves the array of the update's URL alone.
use es_inverter.Base.{ℕ, ◌≡◌, inl, inr, arith, List}
use es_inverter.Main.Confirm.{
  StartAction, Image, returned, EventGroup, update_error_rolled_back, app_confirm_wait,
}
use es_inverter.Rs232.Memory.{done, Outcome-cases}
use es_inverter.Update.Events.{with_status-keeps}
use es_inverter.Update.State.{Device, UpdateState, update_error_handler}

pub app_confirm_wait-new_fw_image_url :
    (dev : Device) (wait_bits : EventGroup → ℕ → ℕ) (image : Image) (group : EventGroup)
    (s : UpdateState) {actions : List StartAction} {after : UpdateState}
    → app_confirm_wait dev wait_bits image group s ≡ done (actions, returned after)
    → after.new_fw_image_url ≡ s.new_fw_image_url
unfolding app_confirm_wait update_error_handler
app_confirm_wait-new_fw_image_url dev wait_bits image group s {actions} {after} e =
    let t : UpdateState = record s { error = update_error_rolled_back } in
    elim (Outcome-cases (update_error_handler dev update_error_rolled_back s)) [
      | inl f ↦ ground arith
      | inr ((effects, left), q) ↦
          let same : left ≡ t = with_status-keeps dev t {effects = effects} {after = left} q in
          ground arith
    ]
