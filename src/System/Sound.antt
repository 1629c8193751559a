-- ===== src/System/Sound.antt =====
-- What holds in every state that the device reaches, and what it does not refuse there.
use es_inverter.Base.{ℕ, ◌<◌, ◌≡◌, refl, sym, ◌∙◌, ap, arith, List, ◌∷◌, Bytes, length, pos, Bool}
use es_inverter.Dispatcher.Kept.{dispatcher_handler_keeps}
use es_inverter.Main.Reset.{Stopping}
use es_inverter.Main.Waits.{app_confirm_wait-new_fw_image_url}
use es_inverter.Rs232.Memory.{done}
use es_inverter.Storage.Callbacks.{
  IsUnique, storage_register_on_changed_callback, storage_unregister_on_changed_callback,
  insert_node, remove_node, remove_node-IsUnique, remove_node-gone,
}
use es_inverter.Storage.Data.{Database, factory_config}
use es_inverter.Storage.Dump.{State, update_checksums, dump, storage_init}
use es_inverter.Storage.Durable.{same_done, dump_same}
use es_inverter.Storage.Nvs.{Nvs}
use es_inverter.Storage.Room.{HasRoom}
use es_inverter.Storage.Filled.{init_fills}
use es_inverter.Storage.Steps.{checked, unscheduled}
use es_inverter.System.Device.{
  Sys, Command, cold, started, Quietly, download, confirm, add_meter, add_energy, set_meter, listen,
  stop_listening, check, write, power_loss, reboot, Obeys, handle, reset, Run, here, quiet, command,
  world_of,
}
use es_inverter.System.Regular.{
  IsRegular, factory-IsRegular, storage_add-IsRegular, IsKept-IsRegular, filled-IsRegular,
  checked-IsRegular,
}
use es_inverter.Update.Array.{http_ota_event_handler-new_fw_image_url}
use es_inverter.Update.State.{Device}

-- A sound state: the database is regular, no callback is on the list twice, and the array of the
-- update's URL has its length.
pub record IsSound {F : Type 0} (s : Sys F) : Type 0 where
  pub regular : IsRegular s.storage.database
  pub callbacks : IsUnique s.storage.storage_slist
  pub array : length s.update.new_fw_image_url ≡ 128

registered-IsUnique :
    (allocated : Bool) (cb : ℕ) (nodes : List ℕ) {after : List ℕ}
    → IsUnique nodes
    → storage_register_on_changed_callback allocated cb nodes ≡ done after
    → IsUnique after
unfolding storage_register_on_changed_callback insert_node
registered-IsUnique allocated cb nodes {after} h e =
    let same : after ≡ cb ∷ (remove_node cb nodes).1 = ground arith in
    rw same (remove_node-gone cb nodes h, remove_node-IsUnique cb nodes h)

unregistered-IsUnique :
    (cb : ℕ) (nodes : List ℕ)
    → IsUnique nodes
    → IsUnique (storage_unregister_on_changed_callback cb nodes)
unfolding storage_unregister_on_changed_callback
unregistered-IsUnique cb nodes h = remove_node-IsUnique cb nodes h

module _ (nvs : Nvs) (crc32 : Bytes → ℕ) (room : HasRoom nvs) (dev : Device)
    (esp_restart : Stopping nvs crc32) (word : (bytes : Bytes) → crc32 bytes < 4294967296) where
  open nvs use {Flash, power_up}

  -- The halves of a dump leave the callbacks.
  checked_callbacks :
      (s : State Flash)
      → (checked nvs crc32 (unscheduled nvs crc32 s)).storage.storage_slist ≡ s.storage_slist
  unfolding checked update_checksums
  checked_callbacks s = ground arith

  dump_callbacks :
      (s : State Flash) {t : State Flash} {called : List ℕ}
      → dump nvs crc32 s ≡ done (t, called)
      → t.storage_slist ≡ s.storage_slist
  unfolding dump
  dump_callbacks s {t} {called} e = ground arith

  -- A start, whatever is in flash.
  pub started-IsSound :
      (flash : Flash) {t : State Flash}
      → storage_init nvs crc32 (cold flash) ≡ done t
      → IsSound (started t)
  started-IsSound flash {t} e =
      let same = same_done (sym e ∙ init_fills nvs crc32 room (cold flash)) in
      rw same (record {
        regular = filled-IsRegular nvs crc32 room _ factory_config factory-IsRegular;
        callbacks = tt;
        array = refl;
      })

  with_database-IsSound :
      (s : Sys Flash) (db : Database)
      → IsRegular db
      → IsSound s
      → IsSound (record s { storage = record (s.storage) { database = db } })
  with_database-IsSound s db regular h = record {
    regular = regular;
    callbacks = h.callbacks;
    array = h.array;
  }

  Quietly-IsSound :
      (s t : Sys Flash) → Quietly nvs crc32 dev esp_restart s t → IsSound s → IsSound t
  Quietly-IsSound s t (download event {effects} {after} e) h = record {
    regular = h.regular;
    callbacks = h.callbacks;
    array =
        ap length (
          http_ota_event_handler-new_fw_image_url dev event s.update {effects = effects}
            {after = after} e)
        ∙ h.array;
  }
  Quietly-IsSound s t (confirm wait_bits image group {actions} {after} e) h = record {
    regular = h.regular;
    callbacks = h.callbacks;
    array =
        ap length (
          app_confirm_wait-new_fw_image_url dev wait_bits image group s.update {actions = actions}
            {after = after} e)
        ∙ h.array;
  }
  Quietly-IsSound s t (add_meter compile_time datetime value meas_type) h =
      with_database-IsSound s _
        (storage_add-IsRegular compile_time datetime value meas_type 0 s.storage.database
          h.regular).0
        h
  Quietly-IsSound s t (add_energy compile_time datetime value) h =
      with_database-IsSound s _
        (storage_add-IsRegular compile_time datetime datetime 0 value s.storage.database
          h.regular).1
        h
  Quietly-IsSound s t (set_meter datetime value meas_type) h =
      with_database-IsSound s _
        (storage_add-IsRegular datetime datetime value meas_type 0 s.storage.database h.regular).2 h
  Quietly-IsSound s t (listen allocated cb {calls} e) h = record {
    regular = h.regular;
    callbacks =
        registered-IsUnique allocated cb s.storage.storage_slist {after = calls} h.callbacks e;
    array = h.array;
  }
  Quietly-IsSound s t (stop_listening cb) h = record {
    regular = h.regular;
    callbacks = unregistered-IsUnique cb s.storage.storage_slist h.callbacks;
    array = h.array;
  }
  Quietly-IsSound s t (check quietly scheduled) h = record {
    regular = checked-IsRegular nvs crc32 room s.storage word h.regular;
    callbacks = rw (checked_callbacks s.storage) h.callbacks;
    array = h.array;
  }
  Quietly-IsSound s t (write {t = after} {called} dumping e) h = record {
    regular = rw (dump_same nvs crc32 room s.storage {t = after} {called = called} e).0 h.regular;
    callbacks = rw (dump_callbacks s.storage {t = after} {called = called} e) h.callbacks;
    array = h.array;
  }
  Quietly-IsSound s t (power_loss {t = after} committed e) h =
      started-IsSound (power_up s.storage.flash) {t = after} e
  Quietly-IsSound s t (reboot {actions} {stopped} {t = after} shut e) h =
      started-IsSound (power_up stopped.flash) {t = after} e

  Obeys-IsSound :
      (s t : Sys Flash) (c : Command)
      → Obeys nvs crc32 dev esp_restart s c t
      → IsSound s
      → IsSound t
  Obeys-IsSound s t c (handle m {r = handled} is e) h =
      let (kept, array) =
        dispatcher_handler_keeps nvs crc32 dev (pos 1) 100000 m.answers m.type_of m.msg (world_of s)
          handled h.array e in
      record {
        regular = IsKept-IsRegular kept h.regular;
        callbacks = rw kept.callbacks h.callbacks;
        array = array;
      }
  Obeys-IsSound s t c (reset {actions} {stopped} {t = after} shut e) h =
      started-IsSound (power_up stopped.flash) {t = after} e

  pub Run-IsSound :
      (s t : Sys Flash) (cs : List Command)
      → Run nvs crc32 dev esp_restart s cs t
      → IsSound s
      → IsSound t
  Run-IsSound s t cs (here u) h = h
  Run-IsSound s t cs (quiet {t = mid} step rest) h =
      Run-IsSound mid t cs rest (Quietly-IsSound s mid step h)
  Run-IsSound s t (c ∷ cs) (command d {t = mid} step rest) h =
      Run-IsSound mid t cs rest (Obeys-IsSound s mid c step h)
