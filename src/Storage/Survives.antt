-- ===== src/Storage/Survives.antt =====
-- storage.c: what a start finds of the id and the coordinates, in a flash of which nothing waits for
-- its commit.
use es_inverter.Base.{ℕ, ◌≡◌, refl, ◌∙◌, ap, Bytes}
use es_inverter.Rs232.Memory.{done}
use es_inverter.Storage.Data.{factory_config}
use es_inverter.Storage.Dump.{State, storage_init}
use es_inverter.Storage.Durable.{IsDurable, same-IsDurable, checked_same}
use es_inverter.Storage.Mapper.{
  NvsType, Key, Cell, type_u32, type_i64, d_unique_id, d_c_lat, d_c_long,
}
use es_inverter.Storage.Nvs.{Nvs}
use es_inverter.Storage.Room.{HasRoom, IsCommitted}
use es_inverter.Storage.Filled.{filled, init_fills, filled_lem, read_same}
use es_inverter.Storage.Steps.{checked, unscheduled}

module _ (nvs : Nvs) (crc32 : Bytes → ℕ) (room : HasRoom nvs) where
  open nvs use {Flash, nvs_open, nvs_get, power_up}

  pub check-IsDurable :
      (s : State Flash)
      → IsDurable nvs crc32 room s
      → IsDurable nvs crc32 room (checked nvs crc32 (unscheduled nvs crc32 s)).storage
  check-IsDurable s k =
      let (id, coord, flash) = checked_same nvs crc32 room (unscheduled nvs crc32 s) in
      same-IsDurable nvs crc32 room s (checked nvs crc32 (unscheduled nvs crc32 s)).storage id coord
        (λ u key size ne. ap (λ (f : Flash). nvs_get f u key size) flash) k

  -- What a start finds of a flash of which nothing waits for a commit.
  pub power_up-IsDurable :
      (s : State Flash)
      → IsCommitted nvs s.flash
      → IsDurable nvs crc32 room s
      → IsDurable nvs crc32 room (record s { flash = power_up s.flash })
  power_up-IsDurable s kept k =
      same-IsDurable nvs crc32 room s (record s { flash = power_up s.flash }) refl refl
        (λ u key size ne. kept u key size) k

  -- A start on the flash of such a state.
  pub storage_init-IsDurable :
      (s c : State Flash)
      → IsDurable nvs crc32 room s
      → c.flash ≡ s.flash
      → (t : State Flash) × (storage_init nvs crc32 c ≡ done t)
        × IsDurable nvs crc32 room t
        × (t.database.device.perm.unique_id ≡ s.database.device.perm.unique_id)
        × (t.database.device.perm.coord ≡ s.database.device.perm.coord)
  storage_init-IsDurable s c k same =
      let flash : Flash = (nvs_open s.flash).1 in
      let opened = λ (u : NvsType) (key : Key) (size : ℕ) (cell : Cell).
        read_same nvs crc32 room s.flash flash u key size cell (room.get_open s.flash u key size) in
      let t : State Flash = record c {
        database = filled nvs crc32 room (nvs_open c.flash).1 factory_config;
        flash = (nvs_open c.flash).1;
      } in
      let read =
        filled_lem nvs crc32 room flash s.database.device.perm.unique_id
          s.database.device.perm.coord.latitude s.database.device.perm.coord.longitude k.id_word
          (opened type_u32 d_unique_id 4 _ ∙ k.id_kept)
          (opened type_i64 d_c_lat 8 _ ∙ k.latitude_kept)
          (opened type_i64 d_c_long 8 _ ∙ k.longitude_kept) in
      let id : t.database.device.perm.unique_id ≡ s.database.device.perm.unique_id =
        rw same read.0 in
      let coord : t.database.device.perm.coord ≡ s.database.device.perm.coord = rw same read.1 in
      (
        t,
        init_fills nvs crc32 room c,
        same-IsDurable nvs crc32 room s t id coord
            (λ u key size ne. rw same (room.get_open s.flash u key size)) k,
        id,
        coord,
      )
