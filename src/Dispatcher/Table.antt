-- ===== src/Dispatcher/Table.antt =====
-- dispatcher.c: the table `mapper` and `dispatcher_handler`, which looks a message up in it.
use es_inverter.Base.{ℕ, List, [], ◌∷◌, Bytes, if◌then◌else◌, ◌==◌, ℤ}
use es_inverter.Dispatcher.Get.{get_handler}
use es_inverter.Dispatcher.Handlers.{
  err_not_supported, connection_status_handler, reboot_handler, factory_reset_handler,
  led_evt_identify_msg_handler, update_start_handler, update_apply_handler, wireless_enable_handle,
  wireless_set_credentials_handle, wireless_set_tx_power_handle, wireless_set_channel_handle,
  environment_cloud_cover_handler, environment_set_position_handler, coredump_confirmed_handler,
  status_handler,
}
use es_inverter.Dispatcher.World.{Payload, Answers, World, Handled}
use es_inverter.Rs232.Memory.{Outcome, done}
use es_inverter.Storage.Nvs.{Nvs}
use es_inverter.Update.State.{Device}

module _ (nvs : Nvs) (crc32 : Bytes → ℕ) (dev : Device) (multiplier : ℤ) (divisor : ℕ)
    (a : Answers) where
  open nvs use {Flash}

  abbrev pub Handler : Type 0
  Handler = Payload → World Flash → Outcome (Handled Flash)

  -- The types of the messages are those of messages.h.
  unfoldable pub mapper : List (ℕ × Handler)
  mapper =
      (0x02, connection_status_handler nvs crc32 dev multiplier divisor a)
      ∷ (0x10, reboot_handler nvs crc32 dev multiplier divisor a)
      ∷ (0x11, factory_reset_handler nvs crc32 dev multiplier divisor a)
      ∷ (0x13, led_evt_identify_msg_handler nvs crc32 dev multiplier divisor a)
      ∷ (0x21, update_start_handler nvs crc32 dev multiplier divisor a)
      ∷ (0x22, update_apply_handler nvs crc32 dev multiplier divisor a)
      ∷ (0x30, wireless_enable_handle nvs crc32 dev multiplier divisor a)
      ∷ (0x32, wireless_set_credentials_handle nvs crc32 dev multiplier divisor a)
      ∷ (0x34, wireless_set_tx_power_handle nvs crc32 dev multiplier divisor a)
      ∷ (0x36, wireless_set_channel_handle nvs crc32 dev multiplier divisor a)
      ∷ (0x73, environment_cloud_cover_handler nvs crc32 dev multiplier divisor a)
      ∷ (0x74, environment_set_position_handler nvs crc32 dev multiplier divisor a)
      ∷ (0xD3, coredump_confirmed_handler nvs crc32 dev multiplier divisor a)
      ∷ (0xF0, status_handler nvs crc32 dev multiplier divisor a)
      ∷ (0xF1, get_handler nvs crc32 dev a)
      ∷ []

  unfoldable pub dispatch_from : List (ℕ × Handler) → ℕ → Handler
  dispatch_from [] type_of msg w =
      done (record { code = err_not_supported; actions = []; world = w })
  dispatch_from ((known, cb) ∷ rest) type_of msg w =
      let other : Outcome (Handled Flash) = dispatch_from rest type_of msg w in
      if type_of == known then cb msg w else other

  unfoldable pub dispatcher_handler : ℕ → Handler
  dispatcher_handler type_of msg w = dispatch_from mapper type_of msg w
