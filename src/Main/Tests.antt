-- ===== src/Main/Tests.antt =====
-- The start and the end of the application at concrete answers of the libraries.
use es_inverter.Base.{
  ℕ, ◌+◌, ◌≡◌, ◌≤◌, inl, inr, refl, arith, true, false, List, [], ◌∷◌, pos, map, leb, bit_and,
  if◌then◌else◌, ◌==◌, Bool-cases,
}
use es_inverter.Dispatcher.Example.{device, answers}
use es_inverter.Dispatcher.Handlers.{connection_status_handler}
use es_inverter.Dispatcher.World.{
  connection_status_msg, post_auth, schedule_authentication, Handled,
}
use es_inverter.Storage.Persist.{with_unique_id, storage_set_device_unique_id_lem}
use es_inverter.Main.Boot.{Boot, Booted, flash_init, flash_erase, app_main, common}
use es_inverter.Main.Confirm.{
  mark_app_valid, of_update, returned, Image, EventGroup, app_confirm_wait,
  authentication_delayed_handler,
}
use es_inverter.Main.Reset.{
  set_factory_config, wifi_factory_reset, dump_database, tcp_disconnect_panic,
  wifi_stop_reconnecting, print_stats, app_shutdown_handlers, delayed_esp_factory_reset,
  delayed_esp_reboot, delayed_esp_factory_reset-storage_init,
}
use es_inverter.Main.Timely.{IsSetBy, IsWait, app_confirm_wait-connection_status_handler}
use es_inverter.Rs232.Memory.{done}
use es_inverter.Storage.Data.{factory_config}
use es_inverter.Storage.Dump.{State, storage_init}
use es_inverter.Storage.Example.{Memory, memory, memory-HasRoom, start, sum}
use es_inverter.Storage.Nvs.{clear_unused_db_entries, read_db_entries, process_db_entry}
use es_inverter.Storage.Restart.{IsWords, Restarted}
use es_inverter.Update.State.{Effect, send_installed_fw, update_state, update_send_installed_fw}
use es_inverter.Update.Version.{get_fw_version_string, strtoul, digits}

-- A wait that looks for the bit of the authentication only.
abbrev wait_bits : EventGroup → ℕ → ℕ
wait_bits [] timeout = 0
wait_bits ((at, bits) ∷ rest) timeout =
    let later = wait_bits rest timeout in
    if leb at timeout then (if bit_and bits 1 == 0 then later else 1) else later

-- What remains when the first bits do not count.
others :
    (at bits : ℕ) (rest : EventGroup) (timeout : ℕ)
    → ¬ ((at ≤ timeout) × ((bit_and bits 1 == 0) ≡ false))
    → IsSetBy ((at, bits) ∷ rest) timeout
    → IsSetBy rest timeout
others at bits rest timeout none_first (inl first) = absurd (none_first first)
others at bits rest timeout none_first (inr later) = later

wait_bits-IsWait : IsWait wait_bits
wait_bits-IsWait [] timeout = ground arith
wait_bits-IsWait ((at, bits) ∷ rest) timeout =
    let ih = wait_bits-IsWait rest timeout in
    elim (Bool-cases (leb at timeout)) [
      | inl early ↦ elim (Bool-cases (bit_and bits 1 == 0)) [
        | inl clear ↦ (
          λ e. inr (ih.0 (rw (early, clear) at e)),
          λ by.
              rw (early, clear) (ih.1 (others at bits rest timeout (λ h. ground (arith, h.1)) by)),
        )
        | inr set ↦ (λ e. inl (ground arith, set), λ by. rw (early, set) refl)
      ]
      | inr late ↦ (
        λ e. inr (ih.0 (rw late at e)),
        λ by. rw late (ih.1 (others at bits rest timeout (λ h. ground (arith, h.0)) by)),
      )
    ]

abbrev sent : List Effect
sent = send_installed_fw 66051 0xFFFFFFFF 3 1000 ∷ []

installed_sent : update_send_installed_fw device update_state ≡ done sent
unfolding update_send_installed_fw get_fw_version_string strtoul digits
installed_sent = refl

abbrev told_id : Handled Memory
told_id = record {
  code = pos 0;
  actions = post_auth 77 ∷ schedule_authentication 11695 ∷ [];
  world = record {
    storage = with_unique_id memory sum memory-HasRoom start 77;
    update = update_state;
  };
}

told_run :
    connection_status_handler memory sum device
      (pos 1)
      100000
      answers
      (connection_status_msg 77)
      (record { storage = start; update = update_state })
    ≡ done told_id
unfolding connection_status_handler
told_run =
    rw (storage_set_device_unique_id_lem memory sum memory-HasRoom start 77 (omega arith)) refl

app_confirm_wait-connection_status_handler_example :
    app_confirm_wait device wait_bits
      (record { state_ret = 0; ota_state = 1; mark_valid_ret = 0; rollback_ret = 0 })
      (authentication_delayed_handler (12000 + 11695 + 30) []).1
      update_state
    ≡ done (mark_app_valid ∷ map of_update sent, returned update_state)
app_confirm_wait-connection_status_handler_example =
    app_confirm_wait-connection_status_handler memory sum device (pos 1) 100000 answers wait_bits 77
      12000 11695 30 0 (record { storage = start; update = update_state }) told_id update_state sent
      wait_bits-IsWait (omega arith) told_run refl installed_sent

start-IsWords : IsWords start.database
start-IsWords = record {
  checksum_word = omega arith;
  unique_id_word = omega arith;
  latitude_word = omega arith;
  longitude_word = omega arith;
  ds_word = omega arith;
}

delayed_esp_factory_reset-storage_init_example :
    ((stopped : State Memory) × (delayed_esp_reboot memory sum
          (app_shutdown_handlers memory sum)
          start
        ≡ done (
          dump_database ∷ tcp_disconnect_panic ∷ wifi_stop_reconnecting ∷ print_stats ∷ [],
          stopped,
        ))
      × Restarted memory sum memory-HasRoom stopped start.database)
    × ((stopped : State Memory) × (delayed_esp_factory_reset memory sum
            (app_shutdown_handlers memory sum)
            start
          ≡ done (
            set_factory_config ∷ wifi_factory_reset ∷ dump_database ∷ tcp_disconnect_panic
                ∷ wifi_stop_reconnecting ∷ print_stats ∷ [],
            stopped,
          ))
        × Restarted memory sum memory-HasRoom stopped factory_config)
delayed_esp_factory_reset-storage_init_example =
    delayed_esp_factory_reset-storage_init memory sum memory-HasRoom
      (app_shutdown_handlers memory sum) start (λ s. refl) start-IsWords

-- The partition has a newer format, and is erased.
abbrev boot : Boot
boot = record {
  flash_init_ret = 0x1110;
  flash_erase_ret = 0;
  flash_init_again_ret = 0;
  event_loop_ret = 0;
  group_created = true;
  button_ret = 0;
  ota_ret = 0;
  tcp_ret = 0;
  led_ret = 0;
  shutdown_ret = 0;
}

abbrev confirmed : Image
confirmed = record { state_ret = 0; ota_state = 2; mark_valid_ret = 0; rollback_ret = 0 }

abbrev booted : Booted Memory
booted = record {
  steps = flash_init ∷ flash_erase ∷ flash_init ∷ common memory sum device wait_bits boot;
  actions = [];
  storage = start;
  ended = returned update_state;
}

boot_run : app_main memory sum device wait_bits boot confirmed [] start update_state ≡ done booted
unfolding app_main app_confirm_wait storage_init clear_unused_db_entries read_db_entries
    process_db_entry
boot_run = refl
