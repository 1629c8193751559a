-- ===== src/System/Device.antt =====
-- dispatcher.c, sys_evt.c, storage.c and main.c together: the state that the tasks of the device
-- share, and what they do to it, in any order. A task holds the mutex of the storage for the whole
-- of a step; the dump gives it back between its two halves.
use es_inverter.Base.{ℕ, ◌≡◌, Bool, true, false, List, [], ◌∷◌, Bytes, ℤ, pos}
use es_inverter.Dispatcher.Returns.{IsMessage}
use es_inverter.Dispatcher.Run.{Message}
use es_inverter.Dispatcher.Table.{dispatcher_handler}
use es_inverter.Dispatcher.World.{World, Handled}
use es_inverter.Main.Confirm.{StartAction, Image, returned, EventGroup, app_confirm_wait}
use es_inverter.Main.Reset.{ShutdownAction, Stopping, delayed_esp_factory_reset, delayed_esp_reboot}
use es_inverter.Rs232.Memory.{done}
use es_inverter.Storage.Callbacks.{
  storage_register_on_changed_callback, storage_unregister_on_changed_callback,
}
use es_inverter.Storage.Data.{Database, factory_config}
use es_inverter.Storage.Dump.{State, dump, storage_init}
use es_inverter.Storage.Meters.{
  storage_set_meter_value, storage_add_meter_entry, storage_add_energy_entry,
}
use es_inverter.Storage.Nvs.{Nvs}
use es_inverter.Storage.Room.{IsCommitted}
use es_inverter.Storage.Steps.{Config, checked, unscheduled}
use es_inverter.Update.Events.{OtaEvent, http_ota_event_handler}
use es_inverter.Update.State.{Device, Effect, UpdateState, update_state}

-- The static variables of storage.c and update.c, and whether a dump is between its halves.
pub record Sys (Flash : Type 0) : Type 0 where
  pub storage : State Flash
  pub dumping : Bool
  pub update : UpdateState

-- What the outside asks of the device.
pub data Command : Type 0 where
  told : Message → Command
  factory_reset : Command

-- The static variables as a power-up leaves them, before `storage_init`.
abbrev pub cold : {F : Type 0} → F → State F
cold flash = record {
  database = factory_config;
  dump_request = 0;
  storage_slist = [];
  dump_scheduled = false;
  flash = flash;
}

abbrev pub started : {F : Type 0} → State F → Sys F
started s = record { storage = s; dumping = false; update = update_state }

abbrev pub with_database : {F : Type 0} → Sys F → Database → Sys F
with_database s db = record s { storage = record (s.storage) { database = db } }

abbrev pub with_callbacks : {F : Type 0} → Sys F → List ℕ → Sys F
with_callbacks s calls = record s { storage = record (s.storage) { storage_slist = calls } }

abbrev pub world_of : {F : Type 0} → Sys F → World F
world_of s = record { storage = s.storage; update = s.update }

module _ (nvs : Nvs) (crc32 : Bytes → ℕ) (dev : Device) (esp_restart : Stopping nvs crc32) where
  open nvs use {Flash, power_up}

  abbrev pub checked_sys : Sys Flash → Sys Flash
  checked_sys s =
      let c : Config Flash = checked nvs crc32 (unscheduled nvs crc32 s.storage) in
      record s { storage = c.storage; dumping = c.dumping }

  -- What the tasks do of their own accord. The power is lost when no value that was set waits for
  -- its commit: what a start would find after another loss is not documented.
  pub data Quietly (s : Sys Flash) : Sys Flash → Type 0 where
    download :
        (event : OtaEvent) {effects : List Effect} {after : UpdateState}
        → http_ota_event_handler dev event s.update ≡ done (effects, after)
        → Quietly s (record s { update = after })
    confirm :
        (wait_bits : EventGroup → ℕ → ℕ) (image : Image) (group : EventGroup)
        {actions : List StartAction} {after : UpdateState}
        → app_confirm_wait dev wait_bits image group s.update ≡ done (actions, returned after)
        → Quietly s (record s { update = after })
    add_meter :
        (compile_time datetime value : ℤ) (meas_type : ℕ)
        → Quietly s (
            with_database s
              (storage_add_meter_entry compile_time s.storage.database datetime meas_type value).1)
    add_energy :
        (compile_time datetime : ℤ) (value : ℕ)
        → Quietly s (
            with_database s
              (storage_add_energy_entry compile_time s.storage.database datetime value).1)
    set_meter :
        (datetime value : ℤ) (meas_type : ℕ)
        → Quietly s (
            with_database s (storage_set_meter_value s.storage.database datetime meas_type value).1)
    listen :
        (allocated : Bool) (cb : ℕ) {calls : List ℕ}
        → storage_register_on_changed_callback allocated cb s.storage.storage_slist ≡ done calls
        → Quietly s (with_callbacks s calls)
    stop_listening :
        (cb : ℕ)
        → Quietly s
            (with_callbacks s (storage_unregister_on_changed_callback cb s.storage.storage_slist))
    check : s.dumping ≡ false → s.storage.dump_scheduled ≡ true → Quietly s (checked_sys s)
    write :
        {t : State Flash} {called : List ℕ}
        → s.dumping ≡ true
        → dump nvs crc32 s.storage ≡ done (t, called)
        → Quietly s (record s { storage = t; dumping = false })
    power_loss :
        {t : State Flash}
        → IsCommitted nvs s.storage.flash
        → storage_init nvs crc32 (cold (power_up s.storage.flash)) ≡ done t
        → Quietly s (started t)
    reboot :
        {actions : List ShutdownAction} {stopped t : State Flash}
        → delayed_esp_reboot nvs crc32 esp_restart s.storage ≡ done (actions, stopped)
        → storage_init nvs crc32 (cold (power_up stopped.flash)) ≡ done t
        → Quietly s (started t)

  -- What they do on a command; the factors of the coordinates are 1 and 100000.
  pub data Obeys (s : Sys Flash) : Command → Sys Flash → Type 0 where
    handle :
        (m : Message) {r : Handled Flash}
        → IsMessage m.type_of m.msg
        → dispatcher_handler nvs crc32 dev (pos 1) 100000 m.answers m.type_of m.msg (world_of s)
          ≡ done r
        → Obeys s (told m) (record s { storage = r.world.storage; update = r.world.update })
    reset :
        {actions : List ShutdownAction} {stopped t : State Flash}
        → delayed_esp_factory_reset nvs crc32 esp_restart s.storage ≡ done (actions, stopped)
        → storage_init nvs crc32 (cold (power_up stopped.flash)) ≡ done t
        → Obeys s factory_reset (started t)

  -- A run of the device, and the commands of it in their order.
  pub data Run : Sys Flash → List Command → Sys Flash → Type 0 where
    here : (s : Sys Flash) → Run s [] s
    quiet : {cs : List Command} {s t u : Sys Flash} → Quietly s t → Run t cs u → Run s cs u
    command :
        (c : Command) {cs : List Command} {s t u : Sys Flash}
        → Obeys s c t
        → Run t cs u
        → Run s (c ∷ cs) u
