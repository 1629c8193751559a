-- ===== src/System/Serves.antt =====
-- What the device does not refuse in any state that it reaches.
use es_inverter.Base.{ℕ, ◌<◌, ◌≡◌, refl, List, [], ◌∷◌, Bytes, none, pos}
use es_inverter.Dispatcher.Returns.{IsMessage, dispatcher_handler-Returns}
use es_inverter.Dispatcher.Run.{Message}
use es_inverter.Main.Reset.{
  ShutdownAction, set_factory_config, wifi_factory_reset, dump_database, tcp_disconnect_panic,
  wifi_stop_reconnecting, print_stats, Stopping, RunsHandlers, app_shutdown_handlers,
  delayed_esp_factory_reset,
}
use es_inverter.Rs232.Memory.{done}
use es_inverter.Storage.Data.{factory_config}
use es_inverter.Storage.Dump.{State, dump, storage_init, storage_set_factory_config}
use es_inverter.Storage.Nvs.{Nvs}
use es_inverter.Storage.Room.{HasRoom}
use es_inverter.Storage.Filled.{init_fills}
use es_inverter.Storage.Committed.{dump_returns}
use es_inverter.Storage.Written.{saved}
use es_inverter.System.Device.{
  Sys, Command, told, factory_reset, cold, started, Obeys, handle, reset, Run, world_of,
}
use es_inverter.System.Sound.{IsSound, started-IsSound, Run-IsSound}
use es_inverter.System.Starts.{behind_shutdown}
use es_inverter.Update.State.{Device, update_numeric_fw_ver}

module _ (nvs : Nvs) (crc32 : Bytes → ℕ) (room : HasRoom nvs) where
  open nvs use {Flash, power_up}

  -- The actions of a factory reset, and the storage behind its dumps.
  reset_returns :
      (esp_restart : Stopping nvs crc32) (s : State Flash)
      → RunsHandlers nvs crc32 esp_restart
      → (actions : List ShutdownAction) × (stopped : State Flash) × (delayed_esp_factory_reset nvs
            crc32 esp_restart s
          ≡ done (actions, stopped))
  unfolding delayed_esp_factory_reset app_shutdown_handlers storage_set_factory_config
  reset_returns esp_restart s runs =
      let fresh : State Flash = record s { database = factory_config } in
      let first : State Flash = behind_shutdown nvs crc32 room fresh in
      (
        set_factory_config ∷ wifi_factory_reset ∷ dump_database ∷ tcp_disconnect_panic
            ∷ wifi_stop_reconnecting ∷ print_stats ∷ [],
        behind_shutdown nvs crc32 room first,
        rw (saved nvs crc32 room fresh, runs first, saved nvs crc32 room first) refl,
      )

  module _ (dev : Device) (esp_restart : Stopping nvs crc32) where
    -- What can be done from here: a message is handled, the factory reset is carried out, a dump
    -- comes to its end, and the device can start again.
    abbrev pub Serves : Sys Flash → Message → Type 0
    Serves s m =
        ((t : Sys Flash) × Obeys nvs crc32 dev esp_restart s (told m) t)
        × ((t : Sys Flash) × Obeys nvs crc32 dev esp_restart s factory_reset t)
        × ((t : State Flash) × (called : List ℕ) × (dump nvs crc32 s.storage ≡ done (t, called)))
        × ((t : State Flash) × (storage_init nvs crc32 (cold (power_up s.storage.flash)) ≡ done t))

    -- With a flash that has room and a checksum of 32 bits: in every state that the device reaches
    -- from its start on any flash, whatever tasks and commands lead there, the series stay within
    -- their arrays, the checksum is a word, no callback is on the list twice, and the array of the
    -- update's URL has its 128 bytes; and there a message is handled if its event can be posted,
    -- the version of the running image is read, and it has a type that the table does not have, or
    -- the structure of its type with its words within their widths, an identify message a scene
    -- that the LED accepts, and an update a URL of no less than its length; a factory reset is
    -- carried out, a dump comes to its end, and a start after a loss of power succeeds.
    pub Run-Serves :
        (installed : ℕ) (flash : Flash) (s : State Flash) (t : Sys Flash) (cs : List Command)
        (m : Message)
        → ((bytes : Bytes) → crc32 bytes < 4294967296)
        → RunsHandlers nvs crc32 esp_restart
        → update_numeric_fw_ver dev none ≡ done installed
        → IsMessage m.type_of m.msg
        → m.answers.event_post ≡ 0
        → storage_init nvs crc32 (cold flash) ≡ done s
        → Run nvs crc32 dev esp_restart (started s) cs t
        → IsSound t × Serves t m
    Run-Serves installed flash s t cs m word runs version is posted first run =
        let begun : IsSound (started s) =
          started-IsSound nvs crc32 room dev esp_restart word flash {t = s} first in
        let sound : IsSound t =
          Run-IsSound nvs crc32 room dev esp_restart word (started s) t cs run begun in
        let (handled, e) =
          dispatcher_handler-Returns nvs crc32 room dev (pos 1) 100000 m.answers m.type_of installed
            m.msg (world_of t) is posted version in
        let (actions, stopped, shut) = reset_returns esp_restart t.storage runs in
        (
          sound,
          (
            (_, handle m {r = handled} is e),
            (
              _,
              reset {actions = actions} {stopped = stopped} shut
                  (init_fills nvs crc32 room (cold (power_up stopped.flash))),
            ),
            dump_returns nvs crc32 room t.storage sound.regular.checksum_word,
            (_, init_fills nvs crc32 room (cold (power_up t.storage.flash))),
          ),
        )
