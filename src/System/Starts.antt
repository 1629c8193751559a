-- ===== src/System/Starts.antt =====
-- What a start finds of the unique id and the coordinates, after a loss of power, a reboot and a
-- factory reset.
use es_inverter.Base.{ℕ, ◌<◌, ◌≡◌, refl, sym, ◌∙◌, ap, inl, inr, arith, List, Bytes}
use es_inverter.Main.Reset.{
  ShutdownAction, Stopping, RunsHandlers, app_shutdown_handlers, delayed_esp_factory_reset,
}
use es_inverter.Rs232.Memory.{done, Outcome-cases}
use es_inverter.Storage.Data.{StorageDevice, factory_config}
use es_inverter.Storage.Dump.{State, storage_init, storage_set_factory_config}
use es_inverter.Storage.Durable.{IsDurable, same_done, same-IsDurable}
use es_inverter.Storage.Mapper.{type_i64}
use es_inverter.Storage.Nvs.{Nvs}
use es_inverter.Storage.Filled.{read_got}
use es_inverter.Storage.Room.{Fits, HasRoom, IsCommitted, nvs_commit-IsCommitted}
use es_inverter.Storage.Survives.{storage_init-IsDurable, power_up-IsDurable}
use es_inverter.Storage.Written.{written, saved, got_unique_id, got_latitude, got_longitude}
use es_inverter.System.Device.{cold}
use es_inverter.System.Register.{Register, register, factory_register}

module _ (nvs : Nvs) (crc32 : Bytes → ℕ) (room : HasRoom nvs) where
  open nvs use {Flash, nvs_open, nvs_get, nvs_commit, power_up}

  -- The storage holds this id and these coordinates, in flash as in memory.
  abbrev pub Holds : State Flash → Register → Type 0
  Holds s r = IsDurable nvs crc32 room s × (register s ≡ r)

  -- What touches neither the device's part of the database nor the flash.
  pub untouched-Holds :
      (s t : State Flash) (r : Register)
      → t.database.device ≡ s.database.device
      → t.flash ≡ s.flash
      → Holds s r
      → Holds t r
  untouched-Holds s t r device flash (k, e) =
      let id = ap (λ (d : StorageDevice). d.perm.unique_id) device in
      let coord = ap (λ (d : StorageDevice). d.perm.coord) device in
      (
        same-IsDurable nvs crc32 room s t id coord (λ u key size ne. rw flash refl) k,
        rw (id, coord) e,
      )

  pub storage_init-Holds :
      (s : State Flash) (r : Register) {t : State Flash}
      → storage_init nvs crc32 (cold (power_up s.flash)) ≡ done t
      → IsCommitted nvs s.flash
      → Holds s r
      → Holds t r
  storage_init-Holds s r {t} e committed (k, same) =
      let left : State Flash = record s { flash = power_up s.flash } in
      let (u, started, durable, id, coord) =
        storage_init-IsDurable nvs crc32 room left (cold left.flash)
          (power_up-IsDurable nvs crc32 room s committed k) refl in
      let its : t ≡ u = same_done (sym e ∙ started) in rw its (durable, rw (id, coord) same)

  -- The state behind a shutdown.
  abbrev pub behind_shutdown : State Flash → State Flash
  behind_shutdown s = record s {
    flash = (nvs_commit (written nvs crc32 room s.database (nvs_open s.flash).1)).1;
  }

  pub behind_shutdown-IsCommitted : (s : State Flash) → IsCommitted nvs (behind_shutdown s).flash
  behind_shutdown-IsCommitted s = nvs_commit-IsCommitted nvs crc32 room _

  -- A dump of the whole database makes it durable, whatever the flash held.
  pub behind_shutdown-IsDurable :
      (s : State Flash)
      → s.database.device.perm.unique_id < 4294967296
      → Fits type_i64 s.database.device.perm.coord.latitude
      → Fits type_i64 s.database.device.perm.coord.longitude
      → IsDurable nvs crc32 room (behind_shutdown s)
  behind_shutdown-IsDurable s hu ha ho =
      let opened : Flash = (nvs_open s.flash).1 in
      record {
        id_word = hu;
        latitude_word = ha;
        longitude_word = ho;
        id_kept =
            read_got nvs crc32 room _ _ _ 4 _ _
              (room.get_commit _ _ _ 4 ∙ got_unique_id nvs crc32 room s.database opened hu);
        latitude_kept =
            read_got nvs crc32 room _ _ _ 8 _ _
              (room.get_commit _ _ _ 8 ∙ got_latitude nvs crc32 room s.database opened ha);
        longitude_kept =
            read_got nvs crc32 room _ _ _ 8 _ _
              (room.get_commit _ _ _ 8 ∙ got_longitude nvs crc32 room s.database opened ho);
      }

  module _ (esp_restart : Stopping nvs crc32) (runs : RunsHandlers nvs crc32 esp_restart) where
    pub esp_restart_lem :
        (s : State Flash) {actions : List ShutdownAction} {stopped : State Flash}
        → esp_restart s ≡ done (actions, stopped)
        → stopped ≡ behind_shutdown s
    unfolding app_shutdown_handlers
    esp_restart_lem s {actions} {stopped} e =
        let shut = sym e ∙ runs s in let dump = saved nvs crc32 room s in ground arith

    pub factory_reset-Holds :
        (s : State Flash) {actions : List ShutdownAction} {stopped : State Flash}
        → delayed_esp_factory_reset nvs crc32 esp_restart s ≡ done (actions, stopped)
        → Holds stopped factory_register × IsCommitted nvs stopped.flash
    unfolding delayed_esp_factory_reset storage_set_factory_config
    factory_reset-Holds s {actions} {stopped} e =
        let fresh : State Flash = record s { database = factory_config } in
        let first : State Flash = behind_shutdown fresh in
        let dump = saved nvs crc32 room fresh in
        elim (Outcome-cases (esp_restart first)) [
          | inl f ↦ absurd (ground arith)
          | inr ((shut, last), q) ↦
              let same : stopped ≡ last = ground arith in
              let its : last ≡ behind_shutdown first =
                esp_restart_lem first {actions = shut} {stopped = last} q in
              rw (same ∙ its) (
                (behind_shutdown-IsDurable first (omega arith) (omega arith) (omega arith), refl),
                behind_shutdown-IsCommitted first,
              )
        ]
