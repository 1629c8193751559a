-- ===== src/Evt/Handlers.antt =====
-- sys_evt.c: `button_event_handler` and `tcp_client_event_handler`. What they ask the rest of the
-- device for is the list of their effects; `ble_start` is the error code of `em_ble_prov_start`.
use es_inverter.Base.{ℕ, ◌≡◌, refl, Bool, true, List, [], ◌∷◌, if◌then◌else◌, ◌==◌}
use es_inverter.Rs232.Memory.{Outcome, done, fault, ◌>>=◌}
use es_inverter.Update.Events.{OtaEvent, run_events, run_events-update_in_progress}
use es_inverter.Update.State.{Device, UpdateState, update_in_progress, update_numeric_fw_ver}
use mathlib.Core.Option.{none}

pub data ButtonEvent : Type 0 where
  short_3x_very_long_1x click_2x click_3x button_other : ButtonEvent

-- The data of a report of a message sent is its error code.
pub data TcpEvent : Type 0 where
  tcp_online tcp_offline : TcpEvent
  tcp_tx_status : ℕ → TcpEvent
  tcp_other : TcpEvent

pub data SysEffect : Type 0 where
  schedule_factory_reset send_factory_reset_status : SysEffect
  start_provisioning : ℕ → SysEffect
  register_tx unregister_tx : SysEffect
  send_client_info : ℕ → ℕ → ℕ → SysEffect
  coredump_data_sent : Bool → SysEffect

unfoldable pub button_event_handler : ℕ → UpdateState → ButtonEvent → Outcome (List SysEffect)
button_event_handler ble_start update short_3x_very_long_1x =
    done (schedule_factory_reset ∷ send_factory_reset_status ∷ [])
button_event_handler ble_start update click_2x = done []
button_event_handler ble_start update click_3x =
    if update_in_progress update
    then done []
    else if ble_start == 0
    then done (start_provisioning 60000 ∷ [])
    else fault
button_event_handler ble_start update button_other = done []

abbrev uint32_max : ℕ
uint32_max = 0xFFFFFFFF

-- The client info with its unique id, hardware and firmware version.
unfoldable pub tcp_client_event_handler : Device → ℕ → TcpEvent → Outcome (List SysEffect)
tcp_client_event_handler dev unique_id tcp_online = do
  fw_ver ← update_numeric_fw_ver dev none
  let sent_id = if unique_id == uint32_max then 0 else unique_id
  done (register_tx ∷ send_client_info sent_id dev.hw_ver fw_ver ∷ [])
tcp_client_event_handler dev unique_id tcp_offline = done (unregister_tx ∷ [])
tcp_client_event_handler dev unique_id (tcp_tx_status err_code) =
    done (coredump_data_sent (err_code == 0) ∷ [])
tcp_client_event_handler dev unique_id tcp_other = done []

-- Once an update is in progress, whatever events of the download follow, an abort included, three
-- clicks of the button do nothing: the provisioning is not started again.
pub button_event_handler-run_events :
    (dev : Device) (events : List OtaEvent) (ble_start : ℕ) (s : UpdateState) {after : UpdateState}
    → update_in_progress s ≡ true
    → run_events dev events s ≡ done after
    → button_event_handler ble_start after click_3x ≡ done []
unfolding button_event_handler
button_event_handler-run_events dev events ble_start s {after} h e =
    rw (run_events-update_in_progress dev events s {after = after} h e) refl
