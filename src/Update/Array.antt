-- ===== src/Update/Array.antt =====
-- sys_evt.c and update.c: the events of the download leave the array of the URL alone.
use es_inverter.Base.{◌≡◌, inl, inr, arith, List, ◌==◌, u8, Bool-cases}
use es_inverter.Rs232.Memory.{done, Outcome-cases}
use es_inverter.Update.Events.{
  OtaEvent, ota_begin, ota_validated, ota_transfer, ota_downloaded, ota_verified, ota_finished,
  ota_abort, ota_unhandled, http_ota_event_handler, with_status-keeps,
}
use es_inverter.Update.State.{
  UpdateState, Device, Effect, started, transfer, downloaded, ready, update_started_handler,
  update_new_progress_handler, update_downloaded_handler, update_ready_handler, update_apply,
  update_error_handler,
}
use es_inverter.Update.Version.{get_fw_version_string}

pub http_ota_event_handler-new_fw_image_url :
    (dev : Device) (event : OtaEvent) (s : UpdateState) {effects : List Effect}
    {after : UpdateState}
    → http_ota_event_handler dev event s ≡ done (effects, after)
    → after.new_fw_image_url ≡ s.new_fw_image_url
unfolding http_ota_event_handler update_apply update_started_handler update_new_progress_handler
    update_downloaded_handler update_ready_handler update_error_handler
http_ota_event_handler-new_fw_image_url dev ota_begin s e = ground arith
http_ota_event_handler-new_fw_image_url dev (ota_validated version) s {effects} {after} e =
    elim (Outcome-cases (get_fw_version_string version)) [
      | inl f ↦ absurd (ground arith)
      | inr (v, p) ↦ ground (
        arith,
        with_status-keeps dev
            (record s { phase = started; new_fw_ver = v; progress = 0; error = 0 }),
      )
    ]
http_ota_event_handler-new_fw_image_url dev (ota_transfer progress) s e =
    elim (Bool-cases (u8 progress == s.progress)) [
      | inl same ↦ ground arith
      | inr new ↦
          ground
            (arith, with_status-keeps dev (record s { progress = u8 progress; phase = transfer }))
    ]
http_ota_event_handler-new_fw_image_url dev ota_downloaded s e =
    ground (arith, with_status-keeps dev (record s { phase = downloaded; progress = 100 }) e)
http_ota_event_handler-new_fw_image_url dev ota_verified s e =
    ground (arith, with_status-keeps dev (record s { phase = ready }) e)
http_ota_event_handler-new_fw_image_url dev ota_finished s e = ground arith
http_ota_event_handler-new_fw_image_url dev (ota_abort err_code) s e =
    ground (arith, with_status-keeps dev (record s { error = u8 err_code }) e)
http_ota_event_handler-new_fw_image_url dev (ota_unhandled event_id) s e = ground arith
