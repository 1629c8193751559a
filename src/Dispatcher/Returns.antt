-- ===== src/Dispatcher/Returns.antt =====
-- dispatcher.c: the messages of the table, as the protocol hands them over, are handled.
use es_inverter.Base.{
  ℕ, ◌<◌, ◌≤◌, ◌≡◌, ◌≢◌, refl, ◌∙◌, inl, inr, arith, none, true, some, Bytes, All, length, ℤ,
  get_elem?,
}
use es_inverter.Dispatcher.Get.{get_handler, answer}
use es_inverter.Dispatcher.Handlers.{
  identify_scene, connection_status_handler, reboot_handler, factory_reset_handler,
  led_evt_identify_msg_handler, update_start_handler, update_apply_handler, wireless_enable_handle,
  wireless_set_credentials_handle, wireless_set_tx_power_handle, wireless_set_channel_handle,
  environment_cloud_cover_handler, environment_set_position_handler, coredump_confirmed_handler,
  status_handler,
}
use es_inverter.Evt.Scenes.{accepts}
use es_inverter.Dispatcher.Routes.{
  known_types, dispatcher_handler-mapper, dispatcher_handler_unknown,
}
use es_inverter.Dispatcher.Table.{Handler, mapper, dispatcher_handler}
use es_inverter.Dispatcher.World.{
  Payload, connection_status_msg, identify_msg, update_start_msg, update_install_msg,
  wireless_enable_msg, wireless_credentials_msg, wireless_tx_power_msg, wireless_channel_msg,
  environment_position_msg, status_msg, get_msg, Answers, World, Handled,
}
use es_inverter.Rs232.Memory.{Outcome, done, fault, Outcome-cases}
use es_inverter.Storage.Mapper.{type_i64}
use es_inverter.Storage.Nvs.{Nvs}
use es_inverter.Storage.Persist.{storage_set_device_unique_id_lem, storage_set_coordinates_lem}
use es_inverter.Storage.Room.{Fits, HasRoom}
use es_inverter.Update.Returns.{update_start_returns, update_sends}
use es_inverter.Update.State.{Device, update_numeric_fw_ver}

-- A message of a type that is not in the table, or with the structure of its type, its words within
-- their widths, the length of its URL within the memory of the URL, and a scene that the LED accepts.
pub data IsMessage : ℕ → Payload → Type 0 where
  connection_status : (u : ℕ) → u < 4294967296 → IsMessage 0x02 (connection_status_msg u)
  reboot : (msg : Payload) → IsMessage 0x10 msg
  factory_reset : (msg : Payload) → IsMessage 0x11 msg
  identify :
      (mode count : ℕ)
      → accepts (identify_scene mode count) ≡ true
      → IsMessage 0x13 (identify_msg mode count)
  update_start_of :
      (dev_type fw_ver hw_ver : ℕ) (url : Bytes) (len policy : ℕ)
      → len ≤ length url
      → IsMessage 0x21 (update_start_msg dev_type fw_ver hw_ver url len policy)
  update_install : (fw_ver delay : ℕ) → IsMessage 0x22 (update_install_msg fw_ver delay)
  wireless_enable : (protocol enabled : ℕ) → IsMessage 0x30 (wireless_enable_msg protocol enabled)
  wireless_credentials :
      (protocol : ℕ) (network password : Bytes)
      → IsMessage 0x32 (wireless_credentials_msg protocol network password)
  wireless_tx_power :
      (protocol : ℕ) (power : ℤ) → IsMessage 0x34 (wireless_tx_power_msg protocol power)
  wireless_channel : (protocol channel : ℕ) → IsMessage 0x36 (wireless_channel_msg protocol channel)
  cloud_cover : (msg : Payload) → IsMessage 0x73 msg
  set_position :
      (lat long : ℤ)
      → Fits type_i64 lat
      → Fits type_i64 long
      → IsMessage 0x74 (environment_position_msg lat long)
  coredump_confirmed : (msg : Payload) → IsMessage 0xD3 msg
  status : (error rq_type : ℕ) → IsMessage 0xF0 (status_msg error rq_type)
  get : (rq_type param : ℕ) → IsMessage 0xF1 (get_msg rq_type param)
  unknown :
      (type_of : ℕ) (msg : Payload)
      → All (λ known. type_of ≢ known) known_types
      → IsMessage type_of msg

module _ (nvs : Nvs) (crc32 : Bytes → ℕ) (room : HasRoom nvs) (dev : Device) (multiplier : ℤ)
    (divisor : ℕ) (a : Answers) where
  open nvs use {Flash}

  abbrev pub Returns : Outcome (Handled Flash) → Type 0
  Returns o = (r : Handled Flash) × (o ≡ done r)

  -- What is handled by a row of the table returns with the row's handler.
  by_row :
      (i known : ℕ) (cb : Handler nvs crc32 dev multiplier divisor a) (msg : Payload)
      (w : World Flash)
      → get_elem? (mapper nvs crc32 dev multiplier divisor a) i ≡ some (known, cb)
      → Returns (cb msg w)
      → Returns (dispatcher_handler nvs crc32 dev multiplier divisor a known msg w)
  by_row i known cb msg w row (r, e) =
      (r, dispatcher_handler-mapper nvs crc32 dev multiplier divisor a i known cb msg w row ∙ e)

  never : (o : Outcome (Handled Flash)) → o ≢ fault → Returns o
  never o ne = elim (Outcome-cases o) [ inl f ↦ absurd (ne f) | inr (r, e) ↦ (r, e) ]

  pub dispatcher_handler-Returns :
      (known installed : ℕ) (msg : Payload) (w : World Flash)
      → IsMessage known msg
      → a.event_post ≡ 0
      → update_numeric_fw_ver dev none ≡ done installed
      → Returns (dispatcher_handler nvs crc32 dev multiplier divisor a known msg w)
  unfolding mapper connection_status_handler reboot_handler factory_reset_handler
      led_evt_identify_msg_handler update_start_handler update_apply_handler wireless_enable_handle
      wireless_set_credentials_handle wireless_set_tx_power_handle wireless_set_channel_handle
      environment_cloud_cover_handler environment_set_position_handler coredump_confirmed_handler
      status_handler get_handler answer
  dispatcher_handler-Returns known installed msg w (connection_status u h) posted e =
      let stored = storage_set_device_unique_id_lem nvs crc32 room w.storage u h in
      by_row 0 0x02 _ _ w refl (never _ (λ f. ground arith))
  dispatcher_handler-Returns known installed msg w (reboot m) posted e =
      by_row 1 0x10 _ _ w refl (never _ (λ f. ground arith))
  dispatcher_handler-Returns known installed msg w (factory_reset m) posted e =
      by_row 2 0x11 _ _ w refl (never _ (λ f. ground arith))
  dispatcher_handler-Returns known installed msg w (identify mode count h) posted e =
      by_row 3 0x13 _ _ w refl (never _ (λ f. ground arith))
  dispatcher_handler-Returns known installed msg w
        (update_start_of dev_type fw_ver hw_ver url len policy h) posted e =
      let (r, after, p) =
        update_start_returns dev a.ota_submit_start dev_type fw_ver hw_ver url len policy installed
          w.update h e in
      by_row 4 0x21 _ _ w refl (never _ (λ f. ground arith))
  dispatcher_handler-Returns known installed msg w (update_install fw_ver delay) posted e =
      by_row 5 0x22 _ _ w refl (never _ (λ f. ground arith))
  dispatcher_handler-Returns known installed msg w (wireless_enable protocol enabled) posted e =
      by_row 6 0x30 _ _ w refl (never _ (λ f. ground arith))
  dispatcher_handler-Returns known installed msg w (wireless_credentials protocol network password)
        posted e =
      by_row 7 0x32 _ _ w refl (never _ (λ f. ground arith))
  dispatcher_handler-Returns known installed msg w (wireless_tx_power protocol power) posted e =
      by_row 8 0x34 _ _ w refl (never _ (λ f. ground arith))
  dispatcher_handler-Returns known installed msg w (wireless_channel protocol channel) posted e =
      by_row 9 0x36 _ _ w refl (never _ (λ f. ground arith))
  dispatcher_handler-Returns known installed msg w (cloud_cover m) posted e =
      by_row 10 0x73 _ _ w refl (never _ (λ f. ground arith))
  dispatcher_handler-Returns known installed msg w (set_position lat long ha ho) posted e =
      let stored = storage_set_coordinates_lem nvs crc32 room w.storage lat long ha ho in
      by_row 11 0x74 _ _ w refl (never _ (λ f. ground arith))
  dispatcher_handler-Returns known installed msg w (coredump_confirmed m) posted e =
      by_row 12 0xD3 _ _ w refl (never _ (λ f. ground arith))
  dispatcher_handler-Returns known installed msg w (status error rq_type) posted e =
      let stored = storage_set_device_unique_id_lem nvs crc32 room w.storage 0 (omega arith) in
      by_row 13 0xF0 _ _ w refl (never _ (λ f. ground arith))
  dispatcher_handler-Returns known installed msg w (get rq_type param) posted e =
      let ((first, p), (second, q)) = update_sends dev installed w.update e in
      by_row 14 0xF1 _ _ w refl (never _ (λ f. ground arith))
  dispatcher_handler-Returns known installed msg w (unknown t m other) posted e =
      (_, dispatcher_handler_unknown nvs crc32 dev multiplier divisor a known msg w other)
