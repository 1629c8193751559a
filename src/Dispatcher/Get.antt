-- ===== src/Dispatcher/Get.antt =====
-- dispatcher.c: `get_handler`, which sends what the server asks for.
use es_inverter.Base.{
  ℕ, ◌||◌, List, [], ◌∷◌, Option, none, some, map, Bytes, if◌then◌else◌, ◌==◌, ℤ, pos, negsuc, ◌*ℤ◌,
}
use es_inverter.Dispatcher.Handlers.{ok_code, err_not_found, esp_fail}
use es_inverter.Dispatcher.World.{
  Payload, get_msg, Action, of_update, send_wireless_status, send_wireless_credentials,
  send_wireless_tx_power, send_wireless_channel, send_environment_position, send_diag_logs_settings,
  Answers, World, Handled,
}
use es_inverter.Rs232.Memory.{Outcome, done, fault, ◌>>=◌}
use es_inverter.Storage.Nvs.{Nvs}
use es_inverter.Storage.Dump.{storage_device}
use es_inverter.Storage.Meters.{meastype_voltage_rms, meastype_power_active}
use es_inverter.Update.State.{Device, update_send_installed_fw, send_update_status}

-- The requests, by their numbers in the protocol.
pub data Request : Type 0 where
  installed_fw update_status wireless_status wireless_credentials wireless_tx_power : Request
  wireless_channel environment_position meter_measurement meter_measurement_history : Request
  meter_current_limit energy_accumulated energy_history diag_logs_settings : Request

abbrev requests : List (ℕ × Request)
requests =
    (0x20, installed_fw)
    ∷ (0x23, update_status)
    ∷ (0x31, wireless_status)
    ∷ (0x33, wireless_credentials)
    ∷ (0x35, wireless_tx_power)
    ∷ (0x37, wireless_channel)
    ∷ (0x75, environment_position)
    ∷ (0xB0, meter_measurement)
    ∷ (0xB1, meter_measurement_history)
    ∷ (0xB3, meter_current_limit)
    ∷ (0xC0, energy_accumulated)
    ∷ (0xC1, energy_history)
    ∷ (0xD7, diag_logs_settings)
    ∷ []

abbrev request_from : List (ℕ × Request) → ℕ → Option Request
request_from [] rq_type = none
request_from ((number, request) ∷ rest) rq_type =
    if rq_type == number then some request else request_from rest rq_type

unfoldable pub request_of : ℕ → Option Request
request_of rq_type = request_from requests rq_type

module _ (nvs : Nvs) (crc32 : Bytes → ℕ) (dev : Device) (a : Answers) where
  open nvs use {Flash}

  abbrev replied : ℤ → List Action → World Flash → Outcome (Handled Flash)
  replied code actions w = done (record { code = code; actions = actions; world = w })

  -- The requests of the meters are answered with nothing.
  unfoldable pub answer : Option Request → ℕ → World Flash → Outcome (Handled Flash)
  answer none param w = replied err_not_found [] w
  answer (some installed_fw) param w = do
    sent ← update_send_installed_fw dev w.update
    replied ok_code (map of_update sent) w
  answer (some update_status) param w = do
    sent ← send_update_status dev w.update
    replied ok_code (map of_update sent) w
  answer (some wireless_status) param w = elim a.wifi_rssi [
    | none ↦ replied (negsuc 1) [] w
    | some rssi ↦ replied ok_code (send_wireless_status a.wifi_local_ip rssi ∷ []) w
  ]
  answer (some wireless_credentials) param w = elim a.wifi_sta_ssid [
    | none ↦ replied esp_fail [] w
    | some ssid ↦ replied ok_code (send_wireless_credentials ssid ∷ []) w
  ]
  answer (some wireless_tx_power) param w = elim a.wifi_tx_power [
    | none ↦ replied esp_fail [] w
    | some tx_power ↦ replied ok_code (send_wireless_tx_power (pos 4 *ℤ tx_power) ∷ []) w
  ]
  answer (some wireless_channel) param w = elim a.wifi_channel [
    | none ↦ replied esp_fail [] w
    | some channel ↦ replied ok_code (send_wireless_channel channel ∷ []) w
  ]
  answer (some environment_position) param w =
      let coord = (storage_device nvs crc32 w.storage).perm.coord in
      replied ok_code (send_environment_position coord.latitude coord.longitude ∷ []) w
  answer (some meter_measurement_history) param w =
      if param == meastype_voltage_rms || param == meastype_power_active
      then replied ok_code [] w
      else replied (negsuc 1) [] w
  answer (some diag_logs_settings) param w = replied ok_code (send_diag_logs_settings ∷ []) w
  answer (some _) param w = replied ok_code [] w

  unfoldable pub get_handler : Payload → World Flash → Outcome (Handled Flash)
  get_handler (get_msg rq_type param) w = answer (request_of rq_type) param w
  get_handler _ w = fault
