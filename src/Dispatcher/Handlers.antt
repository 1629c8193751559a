-- ===== src/Dispatcher/Handlers.antt =====
-- dispatcher.c and led_scene_evt.c: the handlers of the messages, but for those of `get_handler`.
-- `multiplier` and `divisor` are what `em_utils_decode_scaler` gives for the fixed factor of the
-- coordinates.
use es_inverter.Base.{
  ℕ, ◌+◌, not, ◌||◌, List, [], ◌∷◌, some, map, Bytes, if◌then◌else◌, ◌==◌, ℤ, pos, negsuc, ◌*ℤ◌,
  ltb_ℤ, div_ℤ, bit_and, to_word,
}
use es_inverter.Dispatcher.World.{
  Payload, connection_status_msg, identify_msg, update_start_msg, update_install_msg,
  wireless_enable_msg, wireless_credentials_msg, wireless_tx_power_msg, wireless_channel_msg,
  environment_position_msg, status_msg, Action, post_auth, schedule_authentication, schedule_reboot,
  schedule_factory_reset, trigger_scene, stop_provisioning, start_provisioning, of_update,
  connect_station, set_tx_power, set_channel, erase_coredump, long_reconnecting_delay, Answers,
  World, Handled,
}
use es_inverter.Evt.Scenes.{Scene, accepts, rgb_led_pink}
use es_inverter.Rs232.Memory.{Outcome, done, fault, ◌>>=◌}
use es_inverter.Storage.Dump.{storage_set_device_unique_id, storage_set_coordinates}
use es_inverter.Storage.Nvs.{Nvs}
use es_inverter.Update.State.{Device, update_start, update_apply}

-- `ESP_OK` and the error codes.
abbrev pub ok_code : ℤ
ok_code = pos 0

abbrev pub err_invalid_arg : ℤ
err_invalid_arg = pos 0x102

abbrev pub err_not_found : ℤ
err_not_found = pos 0x105

abbrev pub err_not_supported : ℤ
err_not_supported = pos 0x106

abbrev pub esp_fail : ℤ
esp_fail = negsuc 0

-- `PROTOCOL_BLE` and `PROTOCOL_WIFI`.
abbrev pub protocol_ble : ℕ
protocol_ble = 1

abbrev pub protocol_wifi : ℕ
protocol_wifi = 2

abbrev pub msgtype_client_info : ℕ
msgtype_client_info = 0x01

-- The delay before the coredump is sent and the image confirmed: 10 s and a random part.
abbrev pub authentication_delay : ℕ → ℕ
authentication_delay random = bit_and random 0x7FFF + 10000

-- The scene of an identify message.
abbrev pub identify_scene : ℕ → ℕ → Scene
identify_scene mode count = record {
  type_of = mode + 1;
  color = rgb_led_pink;
  brightness = 100;
  t_on = 150;
  t_off = 150;
  repeats = count;
  period = 5000;
}

module _ (nvs : Nvs) (crc32 : Bytes → ℕ) (dev : Device) (multiplier : ℤ) (divisor : ℕ)
    (a : Answers) where
  open nvs use {Flash}

  abbrev finished : ℤ → List Action → World Flash → Outcome (Handled Flash)
  finished code actions w = done (record { code = code; actions = actions; world = w })

  unfoldable pub connection_status_handler : Payload → World Flash → Outcome (Handled Flash)
  connection_status_handler (connection_status_msg unique_id) w =
      let stored : Outcome (Handled Flash) = do
        s ← storage_set_device_unique_id nvs crc32 w.storage unique_id
        finished ok_code
            (post_auth unique_id ∷ schedule_authentication (authentication_delay a.random) ∷ [])
            (record w { storage = s })
      in if a.event_post == 0 then stored else fault
  connection_status_handler _ w = fault

  unfoldable pub reboot_handler : Payload → World Flash → Outcome (Handled Flash)
  reboot_handler msg w = finished ok_code (schedule_reboot ∷ []) w

  unfoldable pub factory_reset_handler : Payload → World Flash → Outcome (Handled Flash)
  factory_reset_handler msg w = finished ok_code (schedule_factory_reset ∷ []) w

  unfoldable pub led_evt_identify_msg_handler : Payload → World Flash → Outcome (Handled Flash)
  led_evt_identify_msg_handler (identify_msg mode count) w =
      let scene : Scene = identify_scene mode count in
      if accepts scene then finished ok_code (trigger_scene scene ∷ []) w else fault
  led_evt_identify_msg_handler _ w = fault

  unfoldable pub update_start_handler : Payload → World Flash → Outcome (Handled Flash)
  update_start_handler (update_start_msg dev_type fw_ver hw_ver img_url img_url_len update_policy)
        w =
      do
        (err, update) ←
            update_start dev a.ota_submit_start dev_type fw_ver hw_ver (some img_url) img_url_len
              update_policy w.update
        finished (pos err) (stop_provisioning ∷ []) (record w { update = update })
  update_start_handler _ w = fault

  unfoldable pub update_apply_handler : Payload → World Flash → Outcome (Handled Flash)
  update_apply_handler (update_install_msg fw_ver delay) w =
      let (effects, update) = update_apply delay w.update in
      finished ok_code (map of_update effects) (record w { update = update })
  update_apply_handler _ w = fault

  unfoldable pub environment_cloud_cover_handler : Payload → World Flash → Outcome (Handled Flash)
  environment_cloud_cover_handler msg w = finished ok_code [] w

  -- The product and the quotient are of integers, so that a fraction of a degree is dropped.
  abbrev pub degrees : ℤ → ℤ
  degrees coordinate = div_ℤ (coordinate *ℤ multiplier) divisor

  unfoldable pub environment_set_position_handler : Payload → World Flash → Outcome (Handled Flash)
  environment_set_position_handler (environment_position_msg latitude longitude) w =
      let lati : ℤ = degrees latitude in
      let longi : ℤ = degrees longitude in
      let stored : Outcome (Handled Flash) = do
        s ← storage_set_coordinates nvs crc32 w.storage latitude longitude
        finished ok_code [] (record w { storage = s })
      in if ltb_ℤ lati (negsuc 89)
          || ltb_ℤ (pos 90) lati
          || ltb_ℤ longi (negsuc 179)
          || ltb_ℤ (pos 180) longi
        then finished err_invalid_arg [] w
        else stored
  environment_set_position_handler _ w = fault

  unfoldable pub coredump_confirmed_handler : Payload → World Flash → Outcome (Handled Flash)
  coredump_confirmed_handler msg w = finished ok_code (erase_coredump ∷ []) w

  -- The server rejected a request; error 3 to the client info forgets the unique id.
  unfoldable pub status_handler : Payload → World Flash → Outcome (Handled Flash)
  status_handler (status_msg error rq_type) w =
      let forgotten : Outcome (Handled Flash) = do
        s ← storage_set_device_unique_id nvs crc32 w.storage 0
        finished ok_code (long_reconnecting_delay ∷ []) (record w { storage = s })
      in if not (rq_type == msgtype_client_info)
        then finished ok_code [] w
        else if error == 3
        then forgotten
        else finished ok_code (long_reconnecting_delay ∷ []) w
  status_handler _ w = fault

  unfoldable pub wireless_enable_handle : Payload → World Flash → Outcome (Handled Flash)
  wireless_enable_handle (wireless_enable_msg protocol enabled) w =
      if not (protocol == protocol_ble)
      then finished err_invalid_arg [] w
      else if not (enabled == 0)
      then finished (a.ble_prov_start 60000) (start_provisioning 60000 ∷ []) w
      else finished ok_code (stop_provisioning ∷ []) w
  wireless_enable_handle _ w = fault

  unfoldable pub wireless_set_credentials_handle : Payload → World Flash → Outcome (Handled Flash)
  wireless_set_credentials_handle (wireless_credentials_msg protocol network password) w =
      if not (protocol == protocol_wifi)
      then finished err_invalid_arg [] w
      else finished ok_code (connect_station network password ∷ []) w
  wireless_set_credentials_handle _ w = fault

  -- A power in 0.1 dBm as one in 0.25 dBm, cut to a byte.
  abbrev pub quarter_dbm : ℤ → ℕ
  quarter_dbm tx_power = to_word 256 (div_ℤ (pos 4 *ℤ tx_power) 10)

  unfoldable pub wireless_set_tx_power_handle : Payload → World Flash → Outcome (Handled Flash)
  wireless_set_tx_power_handle (wireless_tx_power_msg protocol tx_power) w =
      let power : ℕ = quarter_dbm tx_power in
      if not (protocol == protocol_wifi)
      then finished err_invalid_arg [] w
      else if ltb_ℤ tx_power (pos 20) || ltb_ℤ (pos 210) tx_power
      then finished err_invalid_arg [] w
      else finished (a.wifi_set_tx_power power) (set_tx_power power ∷ []) w
  wireless_set_tx_power_handle _ w = fault

  unfoldable pub wireless_set_channel_handle : Payload → World Flash → Outcome (Handled Flash)
  wireless_set_channel_handle (wireless_channel_msg protocol channel) w =
      if not (protocol == protocol_wifi)
      then finished err_invalid_arg [] w
      else finished (a.wifi_set_channel channel) (set_channel channel ∷ []) w
  wireless_set_channel_handle _ w = fault
