-- ===== src/Storage/Filled.antt =====
-- storage.c: what a start reads from flash into the database.
use es_inverter.Base.{ℕ, ◌<◌, ◌≡◌, ◌≢◌, refl, ap, ◌∙◌, arith, Bytes, if◌then◌else◌, ◌==◌, ℤ, pos}
use es_inverter.Rs232.Memory.{done}
use es_inverter.Storage.Data.{Database, StorageDevice, factory_config}
use es_inverter.Storage.Mapper.{
  NvsType, type_u32, type_i64, Key, d_crc, d_unique_id, d_c_lat, d_c_long, ds_crc, Field,
  device_checksum, device_unique_id, device_latitude, device_longitude, ds_checksum, Cell, number,
  text, get_field, put_field,
}
use es_inverter.Storage.Nvs.{Nvs, process_db_entry, read_db_entries, clear_unused_db_entries}
use es_inverter.Storage.Dump.{State, storage_init}
use es_inverter.Storage.Room.{HasRoom}

kept_by_checksum :
    (c : Cell) (db : Database)
    → ((put_field device_checksum c db).device.perm.unique_id ≡ db.device.perm.unique_id)
      × ((put_field device_checksum c db).device.perm.coord ≡ db.device.perm.coord)
kept_by_checksum (number v) db = (refl, refl)
kept_by_checksum (text s) db = (refl, refl)

kept_by_ds : (c : Cell) (db : Database) → (put_field ds_checksum c db).device ≡ db.device
kept_by_ds (number v) db = refl
kept_by_ds (text s) db = refl

elsewhere :
    (field : Field) (c : Cell) (db : Database)
    → field ≢ device_unique_id
    → (put_field field c db).device.perm.unique_id ≡ db.device.perm.unique_id
elsewhere field (text s) db other = refl
elsewhere device_checksum (number v) db other = refl
elsewhere device_unique_id (number v) db other = absurd (other refl)
elsewhere device_latitude (number v) db other = refl
elsewhere device_longitude (number v) db other = refl
elsewhere ds_checksum (number v) db other = refl

module _ (nvs : Nvs) (crc32 : Bytes → ℕ) (room : HasRoom nvs) where
  open nvs use {Flash, nvs_open, nvs_get}

  -- The value that a read leaves in memory.
  abbrev pub read_cell : Flash → NvsType → Key → ℕ → Cell → Cell
  read_cell flash t k size cell =
      let (ret, read) = nvs_get flash t k size in if ret == 0 then read else cell

  abbrev pub row_of : Flash → NvsType → Key → ℕ → Field → Database → Database
  row_of flash t k size field db =
      put_field field (read_cell flash t k size (get_field field db)) db

  abbrev pub filled : Flash → Database → Database
  filled flash db = row_of flash type_u32 ds_crc 4 ds_checksum (
      row_of flash type_i64 d_c_long 8 device_longitude (
        row_of flash type_i64 d_c_lat 8 device_latitude (
          row_of flash type_u32 d_unique_id 4 device_unique_id
            (row_of flash type_u32 d_crc 4 device_checksum db))))

  pub init_fills :
      (s : State Flash)
      → storage_init nvs crc32 s
        ≡ done (record s {
          database = filled (nvs_open s.flash).1 factory_config;
          flash = (nvs_open s.flash).1;
        })
  unfolding storage_init clear_unused_db_entries read_db_entries process_db_entry
  init_fills s = rw (room.open_ok s.flash) refl

  -- The rows of the members, over the values that a start puts into the database first.
  row_id :
      (flash : Flash) (db : Database) (u : ℕ)
      → u < 4294967296
      → read_cell flash type_u32 d_unique_id 4 (number (pos db.device.perm.unique_id))
        ≡ number (pos u)
      → ((row_of flash type_u32 d_unique_id 4 device_unique_id db).device.perm.unique_id ≡ u)
        × ((row_of flash type_u32 d_unique_id 4 device_unique_id db).device.perm.coord
            ≡ db.device.perm.coord)
  row_id flash db u h e = (rw e (omega arith), rw e refl)

  row_latitude :
      (flash : Flash) (db : Database) (lat : ℤ)
      → read_cell flash type_i64 d_c_lat 8 (number db.device.perm.coord.latitude) ≡ number lat
      → ((row_of flash type_i64 d_c_lat 8 device_latitude db).device.perm.unique_id
          ≡ db.device.perm.unique_id)
        × ((row_of flash type_i64 d_c_lat 8 device_latitude db).device.perm.coord
            ≡ record (db.device.perm.coord) { latitude = lat })
  row_latitude flash db lat e = (rw e refl, rw e refl)

  row_longitude :
      (flash : Flash) (db : Database) (long : ℤ)
      → read_cell flash type_i64 d_c_long 8 (number db.device.perm.coord.longitude) ≡ number long
      → ((row_of flash type_i64 d_c_long 8 device_longitude db).device.perm.unique_id
          ≡ db.device.perm.unique_id)
        × ((row_of flash type_i64 d_c_long 8 device_longitude db).device.perm.coord
            ≡ record (db.device.perm.coord) { longitude = long })
  row_longitude flash db long e = (rw e refl, rw e refl)

  pub filled_lem :
      (flash : Flash) (u : ℕ) (lat long : ℤ)
      → u < 4294967296
      → read_cell flash type_u32 d_unique_id 4 (get_field device_unique_id factory_config)
        ≡ number (pos u)
      → read_cell flash type_i64 d_c_lat 8 (get_field device_latitude factory_config) ≡ number lat
      → read_cell flash type_i64 d_c_long 8 (get_field device_longitude factory_config)
        ≡ number long
      → ((filled flash factory_config).device.perm.unique_id ≡ u)
        × ((filled flash factory_config).device.perm.coord
            ≡ record { latitude = lat; longitude = long })
  filled_lem flash u lat long h eu ea eo =
      let db1 : Database = row_of flash type_u32 d_crc 4 device_checksum factory_config in
      let db2 : Database = row_of flash type_u32 d_unique_id 4 device_unique_id db1 in
      let db3 : Database = row_of flash type_i64 d_c_lat 8 device_latitude db2 in
      let db4 : Database = row_of flash type_i64 d_c_long 8 device_longitude db3 in
      let (id1, coord1) =
        kept_by_checksum (read_cell flash type_u32 d_crc 4 (number (pos 0))) factory_config in
      let (id2, coord2) = row_id flash db1 u h (rw id1 eu) in
      let at2 : db2.device.perm.coord ≡ factory_config.device.perm.coord = coord2 ∙ coord1 in
      let (id3, coord3) = row_latitude flash db2 lat (rw at2 ea) in
      let at3 : db3.device.perm.coord
          ≡ record (factory_config.device.perm.coord) { latitude = lat } =
        coord3 ∙ rw at2 refl in
      let (id4, coord4) = row_longitude flash db3 long (rw at3 eo) in
      let kept = kept_by_ds (read_cell flash type_u32 ds_crc 4 (get_field ds_checksum db4)) db4 in
      (
        ap (λ (d : StorageDevice). d.perm.unique_id) kept ∙ id4 ∙ id3 ∙ id2,
        ap (λ (d : StorageDevice). d.perm.coord) kept ∙ coord4 ∙ rw at3 refl,
      )

  -- What is read of a key that is there.
  pub read_got :
      (flash : Flash) (t : NvsType) (k : Key) (size : ℕ) (cell c : Cell)
      → nvs_get flash t k size ≡ (0, c)
      → read_cell flash t k size cell ≡ c
  read_got flash t k size cell c e = rw e refl

  row-unique_id :
      (flash : Flash) (t : NvsType) (k : Key) (size : ℕ) (field : Field) (db : Database)
      → field ≢ device_unique_id
      → (row_of flash t k size field db).device.perm.unique_id ≡ db.device.perm.unique_id
  row-unique_id flash t k size field db other =
      elsewhere field (read_cell flash t k size (get_field field db)) db other

  -- Only the row of the unique id changes it.
  pub filled_unique_id :
      (flash : Flash) (db : Database) (u : ℕ)
      → u < 4294967296
      → nvs_get flash type_u32 d_unique_id 4 ≡ (0, number (pos u))
      → (filled flash db).device.perm.unique_id ≡ u
  filled_unique_id flash db u h e =
      let db1 : Database = row_of flash type_u32 d_crc 4 device_checksum db in
      let db2 : Database = row_of flash type_u32 d_unique_id 4 device_unique_id db1 in
      let db3 : Database = row_of flash type_i64 d_c_lat 8 device_latitude db2 in
      let db4 : Database = row_of flash type_i64 d_c_long 8 device_longitude db3 in
      row-unique_id flash type_u32 ds_crc 4 ds_checksum db4 (λ e. ground arith)
      ∙ row-unique_id flash type_i64 d_c_long 8 device_longitude db3 (λ e. ground arith)
      ∙ row-unique_id flash type_i64 d_c_lat 8 device_latitude db2 (λ e. ground arith)
      ∙ rw e (omega arith)

  pub read_same :
      (flash other : Flash) (t : NvsType) (k : Key) (size : ℕ) (cell : Cell)
      → nvs_get other t k size ≡ nvs_get flash t k size
      → read_cell other t k size cell ≡ read_cell flash t k size cell
  read_same flash other t k size cell e = rw e refl
