-- ===== src/Main/Reset.antt =====
-- dispatcher.c, sys_evt.c and main.c: the delayed factory reset and reboot, the shutdown, and the
-- start that follows. `esp_restart` is a parameter, which runs the shutdown handlers.
use es_inverter.Base.{ℕ, ◌≡◌, refl, List, [], ◌∷◌, ◌++◌, Bytes}
use es_inverter.Rs232.Memory.{Outcome, done, ◌>>=◌}
use es_inverter.Storage.Data.{Database, factory_config}
use es_inverter.Storage.Dump.{State, storage_force_dump_panic, storage_set_factory_config}
use es_inverter.Storage.Nvs.{Nvs}
use es_inverter.Storage.Restart.{IsWords, Restarted, restarted_lem, factory-IsWords}
use es_inverter.Storage.Room.{HasRoom}
use es_inverter.Storage.Written.{written, saved}

pub data ShutdownAction : Type 0 where
  set_factory_config dump_database wifi_factory_reset : ShutdownAction
  tcp_disconnect_panic wifi_stop_reconnecting print_stats : ShutdownAction

module _ (nvs : Nvs) (crc32 : Bytes → ℕ) where
  open nvs use {Flash}

  abbrev pub Stopping : Type 0
  Stopping = State Flash → Outcome (List ShutdownAction × State Flash)

  -- One more call, behind those made so far.
  abbrev pub then_do :
      ShutdownAction
      → (State Flash → Outcome (State Flash))
      → List ShutdownAction × State Flash
      → Outcome (List ShutdownAction × State Flash)
  then_do action call (before, s) = do after ← call s; done (before ++ action ∷ [], after)

  unfoldable pub app_shutdown_handlers : Stopping
  app_shutdown_handlers s = do
    saved ← then_do dump_database (storage_force_dump_panic nvs crc32) ([], s)
    left ← then_do tcp_disconnect_panic done saved
    quiet ← then_do wifi_stop_reconnecting done left
    then_do print_stats done quiet

  unfoldable pub delayed_esp_factory_reset : Stopping → Stopping
  delayed_esp_factory_reset esp_restart s = do
    reset ← then_do set_factory_config (storage_set_factory_config nvs crc32) ([], s)
    (before, forgotten) ← then_do wifi_factory_reset done reset
    (actions, stopped) ← esp_restart forgotten
    done (before ++ actions, stopped)

  unfoldable pub delayed_esp_reboot : Stopping → Stopping
  delayed_esp_reboot esp_restart s = esp_restart s

  -- A restart that runs the shutdown handler and nothing else that touches the storage.
  abbrev pub RunsHandlers : Stopping → Type 0
  RunsHandlers esp_restart = (s : State Flash) → esp_restart s ≡ app_shutdown_handlers s

module _ (nvs : Nvs) (crc32 : Bytes → ℕ) (room : HasRoom nvs) where
  open nvs use {Flash, nvs_open, nvs_commit}

  -- The flash behind a dump of a database.
  dumped : Database → Flash → Flash
  dumped db flash = (nvs_commit (written nvs crc32 room db (nvs_open flash).1)).1

  -- With a flash that has room, and a database that holds words: a delayed reboot dumps the database
  -- and then stops the connections, and the start that follows finds every member that is kept in
  -- flash as it was; a delayed factory reset saves the factory's configuration and resets the
  -- wireless network before it does the same, and the start finds the factory's configuration,
  -- although the shutdown dumps the database once more.
  pub delayed_esp_factory_reset-storage_init :
      (esp_restart : Stopping nvs crc32) (s : State Flash)
      → RunsHandlers nvs crc32 esp_restart
      → IsWords s.database
      → ((stopped : State Flash) × (delayed_esp_reboot nvs crc32 esp_restart s
            ≡ done (
              dump_database ∷ tcp_disconnect_panic ∷ wifi_stop_reconnecting ∷ print_stats ∷ [],
              stopped,
            ))
          × Restarted nvs crc32 room stopped s.database)
        × ((stopped : State Flash) × (delayed_esp_factory_reset nvs crc32 esp_restart s
              ≡ done (
                set_factory_config ∷ wifi_factory_reset ∷ dump_database ∷ tcp_disconnect_panic
                    ∷ wifi_stop_reconnecting ∷ print_stats ∷ [],
                stopped,
              ))
            × Restarted nvs crc32 room stopped factory_config)
  unfolding delayed_esp_reboot delayed_esp_factory_reset app_shutdown_handlers
      storage_set_factory_config dumped
  delayed_esp_factory_reset-storage_init esp_restart s runs h =
      let fresh : State Flash = record s { database = factory_config } in
      let reset : State Flash = record fresh { flash = dumped factory_config s.flash } in
      (
        (
          record s { flash = dumped s.database s.flash },
          rw (runs s, saved nvs crc32 room s) refl,
          restarted_lem nvs crc32 room s s.database h,
        ),
        (
          record reset { flash = dumped factory_config reset.flash },
          rw (saved nvs crc32 room fresh, runs reset, saved nvs crc32 room reset) refl,
          restarted_lem nvs crc32 room reset factory_config factory-IsWords,
        ),
      )
