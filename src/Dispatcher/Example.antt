-- ===== src/Dispatcher/Example.antt =====
-- A device of version 1.2.3, and answers of its libraries.
use es_inverter.Base.{◌≡◌, refl, [], ◌∷◌, none, some, pos}
use es_inverter.Dispatcher.World.{Answers}
use es_inverter.Rs232.Memory.{done}
use es_inverter.Update.State.{Device, update_numeric_fw_ver}
use es_inverter.Update.Version.{get_fw_version_string, strtoul, digits}

abbrev pub device : Device
device = record {
  version = b'1' ∷ b'.' ∷ b'2' ∷ b'.' ∷ b'3' ∷ 0 ∷ [];
  hw_ver = 3;
  dev_type = 9;
  compile_time = 1000;
}

pub installed_version : update_numeric_fw_ver device none ≡ done 66051
unfolding get_fw_version_string strtoul digits
installed_version = refl

abbrev pub answers : Answers
answers = record {
  event_post = 0;
  random = 99999;
  ota_submit_start = λ array. 0;
  ble_prov_start = λ timeout. pos 0;
  wifi_local_ip = 1;
  wifi_rssi = none;
  wifi_sta_ssid = none;
  wifi_tx_power = some (pos 34);
  wifi_channel = none;
  wifi_set_tx_power = λ power. pos 0;
  wifi_set_channel = λ channel. pos 0;
}
