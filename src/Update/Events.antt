-- ===== src/Update/Events.antt =====
-- sys_evt.c: `http_ota_event_handler`, which hands the events of the download to update.c. The data of
-- an event is in its constructor, and `unhandled` stands for the events that no case names.
use es_inverter.Base.{ℕ, ◌≡◌, inl, inr, arith, true, List, [], ◌∷◌, Bytes, ◌==◌, u8, Bool-cases}
use es_inverter.Rs232.Memory.{Outcome, done, ◌>>=◌, Outcome-cases}
use es_inverter.Update.State.{
  UpdateState, Device, Effect, started, transfer, downloaded, ready, update_started_handler,
  update_new_progress_handler, update_downloaded_handler, update_ready_handler, update_apply,
  update_error_handler, send_update_status, update_in_progress, with_status,
}
use es_inverter.Update.Version.{get_fw_version_string}

pub data OtaEvent : Type 0 where
  ota_begin : OtaEvent
  ota_validated : Bytes → OtaEvent
  ota_transfer : ℕ → OtaEvent
  ota_downloaded ota_verified ota_finished : OtaEvent
  ota_abort : ℕ → OtaEvent
  ota_unhandled : ℕ → OtaEvent

unfoldable pub http_ota_event_handler :
    Device → OtaEvent → UpdateState → Outcome (List Effect × UpdateState)
http_ota_event_handler dev ota_begin s = done ([], s)
http_ota_event_handler dev (ota_validated version) s = update_started_handler dev version s
http_ota_event_handler dev (ota_transfer progress) s =
    update_new_progress_handler dev (u8 progress) s
http_ota_event_handler dev ota_downloaded s = update_downloaded_handler dev s
http_ota_event_handler dev ota_verified s = update_ready_handler dev s
http_ota_event_handler dev ota_finished s = done (update_apply 0 s)
http_ota_event_handler dev (ota_abort err_code) s = update_error_handler dev (u8 err_code) s
http_ota_event_handler dev (ota_unhandled event_id) s = done ([], s)

-- The state after a run of events.
abbrev pub run_events : Device → List OtaEvent → UpdateState → Outcome UpdateState
run_events dev [] s = done s
run_events dev (event ∷ rest) s = do
  (effects, next) ← http_ota_event_handler dev event s
  run_events dev rest next

pub with_status-keeps :
    (dev : Device) (s : UpdateState) {effects : List Effect} {after : UpdateState}
    → with_status dev s ≡ done (effects, after)
    → after ≡ s
with_status-keeps dev s {effects} {after} e = elim (Outcome-cases (send_update_status dev s)) [
  | inl f ↦ absurd (ground arith)
  | inr (sent, p) ↦ ground arith
]

handled_in_progress :
    (dev : Device) (event : OtaEvent) (s : UpdateState) {effects : List Effect} {next : UpdateState}
    → update_in_progress s ≡ true
    → http_ota_event_handler dev event s ≡ done (effects, next)
    → update_in_progress next ≡ true
unfolding http_ota_event_handler update_in_progress update_apply update_started_handler
    update_new_progress_handler update_downloaded_handler update_ready_handler update_error_handler
handled_in_progress dev ota_begin s h e = ground arith
handled_in_progress dev (ota_validated version) s {effects} {next} h e =
    elim (Outcome-cases (get_fw_version_string version)) [
      | inl f ↦ absurd (ground arith)
      | inr (v, p) ↦ ground (
        arith,
        with_status-keeps dev
            (record s { phase = started; new_fw_ver = v; progress = 0; error = 0 }),
      )
    ]
handled_in_progress dev (ota_transfer progress) s h e =
    elim (Bool-cases (u8 progress == s.progress)) [
      | inl same ↦ ground arith
      | inr new ↦
          ground
            (arith, with_status-keeps dev (record s { progress = u8 progress; phase = transfer }))
    ]
handled_in_progress dev ota_downloaded s h e =
    ground (arith, with_status-keeps dev (record s { phase = downloaded; progress = 100 }) e)
handled_in_progress dev ota_verified s h e =
    ground (arith, with_status-keeps dev (record s { phase = ready }) e)
handled_in_progress dev ota_finished s h e = elim (Bool-cases (s.policy == 0)) [
  | inl now ↦ ground arith
  | inr later ↦ ground arith
]
handled_in_progress dev (ota_abort err_code) s h e =
    ground (arith, with_status-keeps dev (record s { error = u8 err_code }) e)
handled_in_progress dev (ota_unhandled event_id) s h e = ground arith

-- Once an update is in progress it stays so, whatever events of the download follow: an aborted one
-- too is never left.
pub run_events-update_in_progress :
    (dev : Device) (events : List OtaEvent) (s : UpdateState) {after : UpdateState}
    → update_in_progress s ≡ true
    → run_events dev events s ≡ done after
    → update_in_progress after ≡ true
run_events-update_in_progress dev [] s h e = ground arith
run_events-update_in_progress dev (event ∷ rest) s {after} h e =
    elim (Outcome-cases (http_ota_event_handler dev event s)) [
      | inl f ↦ absurd (ground arith)
      | inr ((effects, next), p) ↦
          run_events-update_in_progress dev rest next {after = after}
            (handled_in_progress dev event s {effects = effects} {next = next} h p) (ground arith)
    ]
