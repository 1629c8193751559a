-- ===== src/Dispatcher/World.antt =====
-- dispatcher.c: the messages that the handlers take, the state that they change, what they ask the
-- rest of the device for, and what the libraries answer.
use es_inverter.Base.{ℕ, List, Option, Bytes, ℤ}
use es_inverter.Evt.Scenes.{Scene}
use es_inverter.Storage.Dump.{State}
use es_inverter.Update.State.{Effect, UpdateState}

-- The structure behind `data`, of the fields that a handler reads; a null pointer is `no_data`.
pub data Payload : Type 0 where
  no_data : Payload
  connection_status_msg : (unique_id : ℕ) → Payload
  identify_msg : (mode count : ℕ) → Payload
  update_start_msg :
      (dev_type fw_ver hw_ver : ℕ) (img_url : Bytes) (img_url_len update_policy : ℕ) → Payload
  update_install_msg : (fw_ver delay : ℕ) → Payload
  wireless_enable_msg : (protocol enabled : ℕ) → Payload
  wireless_credentials_msg : (protocol : ℕ) (network password : Bytes) → Payload
  wireless_tx_power_msg : (protocol : ℕ) (tx_power : ℤ) → Payload
  wireless_channel_msg : (protocol channel : ℕ) → Payload
  environment_position_msg : (latitude longitude : ℤ) → Payload
  status_msg : (error rq_type : ℕ) → Payload
  get_msg : (rq_type param : ℕ) → Payload

-- The calls of the libraries, in the order in which they are made.
pub data Action : Type 0 where
  post_auth schedule_authentication : ℕ → Action
  schedule_reboot schedule_factory_reset : Action
  trigger_scene : Scene → Action
  stop_provisioning : Action
  start_provisioning : ℕ → Action
  of_update : Effect → Action
  connect_station : Bytes → Bytes → Action
  set_tx_power set_channel : ℕ → Action
  erase_coredump long_reconnecting_delay : Action
  send_wireless_status : ℕ → ℤ → Action
  send_wireless_credentials : Bytes → Action
  send_wireless_tx_power : ℤ → Action
  send_wireless_channel : ℕ → Action
  send_environment_position : ℤ → ℤ → Action
  send_diag_logs_settings : Action

-- What the libraries answer while a message is handled: error codes, 0 for ESP_OK, and the values
-- of a successful call.
pub record Answers : Type 0 where
  pub event_post : ℕ
  pub random : ℕ
  pub ota_submit_start : Bytes → ℕ
  pub ble_prov_start : ℕ → ℤ
  pub wifi_local_ip : ℕ
  pub wifi_rssi : Option ℤ
  pub wifi_sta_ssid : Option Bytes
  pub wifi_tx_power : Option ℤ
  pub wifi_channel : Option ℕ
  pub wifi_set_tx_power : ℕ → ℤ
  pub wifi_set_channel : ℕ → ℤ

-- The state of the modules that the handlers call.
pub record World (Flash : Type 0) : Type 0 where
  pub storage : State Flash
  pub update : UpdateState

-- What a handler returns, the calls it makes, and the state it leaves.
pub record Handled (Flash : Type 0) : Type 0 where
  pub code : ℤ
  pub actions : List Action
  pub world : World Flash
