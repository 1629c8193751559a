-- ===== src/System/Refines.antt =====
-- The device, as a register of the unique id and the coordinates that only commands change.
use es_inverter.Base.{ℕ, ◌≡◌, refl, sym, ◌∙◌, List, [], ◌∷◌, Bytes}
use es_inverter.Main.Reset.{
  ShutdownAction, dump_database, tcp_disconnect_panic, wifi_stop_reconnecting, print_stats,
  Stopping, RunsHandlers, app_shutdown_handlers, delayed_esp_reboot,
}
use es_inverter.Rs232.Memory.{done}
use es_inverter.Storage.Data.{Database}
use es_inverter.Storage.Dump.{State, storage_init}
use es_inverter.Storage.Durable.{IsDurable, same_done, checked_same, dump_same, dump-IsDurable}
use es_inverter.Storage.First.{IsTyped, storage_init_any}
use es_inverter.Storage.Nvs.{Nvs}
use es_inverter.Storage.Room.{HasRoom, IsCommitted}
use es_inverter.Storage.Steps.{unscheduled}
use es_inverter.Storage.Written.{saved}
use es_inverter.Storage.Survives.{check-IsDurable, storage_init-IsDurable, power_up-IsDurable}
use es_inverter.System.Device.{
  Sys, Command, cold, started, Quietly, download, confirm, add_meter, add_energy, set_meter, listen,
  stop_listening, check, write, power_loss, reboot, Obeys, handle, reset, Run, here, quiet, command,
  world_of,
}
use es_inverter.System.Register.{Register, register, commanded, obeyed, factory_register}
use es_inverter.System.Regular.{storage_add-device}
use es_inverter.System.Starts.{
  Holds, behind_shutdown, untouched-Holds, storage_init-Holds, behind_shutdown-IsDurable,
  behind_shutdown-IsCommitted, esp_restart_lem, factory_reset-Holds,
}
use es_inverter.System.Told.{dispatcher_handler-IsTaught}
use es_inverter.Update.State.{Device}

module _ (nvs : Nvs) (crc32 : Bytes → ℕ) (room : HasRoom nvs) (dev : Device)
    (esp_restart : Stopping nvs crc32) (runs : RunsHandlers nvs crc32 esp_restart) where
  open nvs use {Flash, power_up}

  measured-Holds :
      (s : State Flash) (db : Database) (r : Register)
      → db.device ≡ s.database.device
      → Holds nvs crc32 room s r
      → Holds nvs crc32 room (record s { database = db }) r
  measured-Holds s db r device h =
      untouched-Holds nvs crc32 room s (record s { database = db }) r device refl h

  -- What the tasks do of their own accord keeps the register.
  Quietly-Holds :
      (s t : Sys Flash) (r : Register)
      → Quietly nvs crc32 dev esp_restart s t
      → Holds nvs crc32 room s.storage r
      → Holds nvs crc32 room t.storage r
  unfolding delayed_esp_reboot
  Quietly-Holds s t r (download event e) h = h
  Quietly-Holds s t r (confirm wait_bits image group e) h = h
  Quietly-Holds s t r (add_meter compile_time datetime value meas_type) h =
      let db : Database = s.storage.database in
      measured-Holds s.storage _ r (storage_add-device compile_time datetime value meas_type 0 db).0
        h
  Quietly-Holds s t r (add_energy compile_time datetime value) h =
      let db : Database = s.storage.database in
      measured-Holds s.storage _ r (storage_add-device compile_time datetime datetime 0 value db).1
        h
  Quietly-Holds s t r (set_meter datetime value meas_type) h =
      let db : Database = s.storage.database in
      measured-Holds s.storage _ r (storage_add-device datetime datetime value meas_type 0 db).2 h
  Quietly-Holds s t r (listen allocated cb {calls} e) h =
      untouched-Holds nvs crc32 room s.storage t.storage r refl refl h
  Quietly-Holds s t r (stop_listening cb) h =
      untouched-Holds nvs crc32 room s.storage t.storage r refl refl h
  Quietly-Holds s t r (check quietly scheduled) (k, e) =
      let (id, coord, flash) = checked_same nvs crc32 room (unscheduled nvs crc32 s.storage) in
      (check-IsDurable nvs crc32 room s.storage k, rw (id, coord) e)
  Quietly-Holds s t r (write {t = after} {called} dumping e) (k, same) =
      let (database, flash) = dump_same nvs crc32 room s.storage {t = after} {called = called} e in
      (dump-IsDurable nvs crc32 room s.storage {t = after} {called = called} e k, rw database same)
  Quietly-Holds s t r (power_loss committed e) h =
      storage_init-Holds nvs crc32 room s.storage r {t = t.storage} e committed h
  Quietly-Holds s t r (reboot {actions} {stopped} shut e) (k, same) =
      let its : stopped ≡ behind_shutdown nvs crc32 room s.storage =
        esp_restart_lem nvs crc32 room esp_restart runs s.storage {actions = actions}
          {stopped = stopped} shut in
      let kept : Holds nvs crc32 room stopped r = rw its (
        behind_shutdown-IsDurable nvs crc32 room s.storage k.id_word k.latitude_word
            k.longitude_word,
        same,
      ) in
      let committed : IsCommitted nvs stopped.flash =
        rw its (behind_shutdown-IsCommitted nvs crc32 room s.storage) in
      storage_init-Holds nvs crc32 room stopped r {t = t.storage} e committed kept

  Obeys-Holds :
      (s t : Sys Flash) (c : Command) (r : Register)
      → Obeys nvs crc32 dev esp_restart s c t
      → Holds nvs crc32 room s.storage r
      → Holds nvs crc32 room t.storage (commanded c r)
  Obeys-Holds s t c r (handle m {r = handled} is e) (k, same) = rw (← same) (
      dispatcher_handler-IsTaught nvs crc32 room dev m.answers m.type_of m.msg (world_of s)
        {r = handled} is k e)
  Obeys-Holds s t c r (reset {actions} {stopped} shut e) h =
      let (kept, committed) =
        factory_reset-Holds nvs crc32 room esp_restart runs s.storage {actions = actions}
          {stopped = stopped} shut in
      storage_init-Holds nvs crc32 room stopped factory_register {t = t.storage} e committed kept

  pub Run-Holds :
      (s t : Sys Flash) (cs : List Command) (r : Register)
      → Run nvs crc32 dev esp_restart s cs t
      → Holds nvs crc32 room s.storage r
      → Holds nvs crc32 room t.storage (obeyed cs r)
  Run-Holds s t cs r (here u) h = h
  Run-Holds s t cs r (quiet {t = mid} step rest) h =
      Run-Holds mid t cs r rest (Quietly-Holds s mid r step h)
  Run-Holds s t (c ∷ cs) r (command d {t = mid} step rest) h =
      Run-Holds mid t cs (commanded c r) rest (Obeys-Holds s mid c r step h)

  -- With a flash that has room and gives numbers of the type that is asked for: from the first
  -- start on, whatever the flash held then, and whatever the tasks do between the commands, the
  -- dumps and their halves, downloads, the confirmation of an image, measurements, reboots, and
  -- losses of power while no value that was set waits for its commit, the device has the id and the
  -- coordinates that the commands alone determine in their order from those of the first start; and
  -- a reboot at any point succeeds, and the start after it finds the same.
  pub register-obeyed :
      (typed : IsTyped nvs) (flash : Flash) (s : State Flash) (t : Sys Flash) (cs : List Command)
      → storage_init nvs crc32 (cold flash) ≡ done s
      → Run nvs crc32 dev esp_restart (started s) cs t
      → (register t.storage ≡ obeyed cs (register s))
        × ((actions : List ShutdownAction) × (stopped restarted : State Flash) × (delayed_esp_reboot
                nvs crc32 esp_restart t.storage
              ≡ done (actions, stopped))
            × (storage_init nvs crc32 (cold (power_up stopped.flash)) ≡ done restarted)
            × (register restarted ≡ obeyed cs (register s)))
  unfolding delayed_esp_reboot app_shutdown_handlers
  register-obeyed typed flash s t cs first run =
      let (any, begun, begins) = storage_init_any nvs crc32 room typed (cold flash) in
      let k : IsDurable nvs crc32 room s = rw (same_done (sym first ∙ begun)) begins in
      let (durable, same) = Run-Holds (started s) t cs (register s) run (k, refl) in
      let stopped : State Flash = behind_shutdown nvs crc32 room t.storage in
      let left : State Flash = record stopped { flash = power_up stopped.flash } in
      let kept : IsDurable nvs crc32 room left =
        power_up-IsDurable nvs crc32 room stopped
          (behind_shutdown-IsCommitted nvs crc32 room t.storage)
          (behind_shutdown-IsDurable nvs crc32 room t.storage durable.id_word durable.latitude_word
            durable.longitude_word) in
      let (u, again, started, id, coord) =
        storage_init-IsDurable nvs crc32 room left (cold left.flash) kept refl in
      (
        same,
        (
          dump_database ∷ tcp_disconnect_panic ∷ wifi_stop_reconnecting ∷ print_stats ∷ [],
          stopped,
          u,
          rw (runs t.storage, saved nvs crc32 room t.storage) refl,
          again,
          rw (id, coord) same,
        ),
      )
