-- ===== src/Storage/Written.antt =====
-- storage.c: what `save_database` leaves of each member in flash.
use es_inverter.Base.{ℕ, ◌<◌, ◌≡◌, ◌≢◌, refl, ◌∙◌, arith, Bytes, ℤ, pos}
use es_inverter.Rs232.Memory.{done}
use es_inverter.Storage.Data.{Database}
use es_inverter.Storage.Dump.{State, save_database}
use es_inverter.Storage.Mapper.{
  NvsType, type_u32, type_i64, Key, d_crc, d_unique_id, d_c_lat, d_c_long, ds_crc, number,
}
use es_inverter.Storage.Nvs.{Nvs, write_db_entries, process_db_entry}
use es_inverter.Storage.Room.{Fits, HasRoom}

module _ (nvs : Nvs) (crc32 : Bytes → ℕ) (room : HasRoom nvs) where
  open nvs use {Flash, nvs_open, nvs_set, nvs_get, nvs_commit}

  abbrev pub set_number : NvsType → Key → ℤ → Flash → Flash
  set_number t k v flash = (nvs_set flash t k (number v)).1

  -- The flash behind the five rows.
  abbrev pub written : Database → Flash → Flash
  written db flash = set_number type_u32 ds_crc (pos db.ds.perm.checksum) (
      set_number type_i64 d_c_long db.device.perm.coord.longitude (
        set_number type_i64 d_c_lat db.device.perm.coord.latitude (
          set_number type_u32 d_unique_id (pos db.device.perm.unique_id)
            (set_number type_u32 d_crc (pos db.device.perm.checksum) flash))))

  pub saved :
      (s : State Flash)
      → save_database nvs crc32 s
        ≡ done (record s { flash = (nvs_commit (written s.database (nvs_open s.flash).1)).1 })
  unfolding save_database write_db_entries process_db_entry
  saved s = rw (room.open_ok s.flash, room.commit_ok (written s.database (nvs_open s.flash).1)) refl

  -- What is read of a key after others were written.
  behind :
      (t u : NvsType) (k other : Key) (v : ℤ) (size : ℕ) (flash : Flash)
      → k ≢ other
      → nvs_get (set_number t k v flash) u other size ≡ nvs_get flash u other size
  behind t u k other v size flash ne = room.get_other flash t u k other (number v) size ne

  its :
      (t : NvsType) (k : Key) (v : ℤ) (size : ℕ) (flash : Flash)
      → Fits t v
      → nvs_get (set_number t k v flash) t k size ≡ (0, number v)
  its t k v size flash h = room.get_set flash t k v size h

  -- The flash behind the first rows.
  abbrev with_crc : Database → Flash → Flash
  with_crc db flash = set_number type_u32 d_crc (pos db.device.perm.checksum) flash

  abbrev with_id : Database → Flash → Flash
  with_id db flash =
      set_number type_u32 d_unique_id (pos db.device.perm.unique_id) (with_crc db flash)

  abbrev with_lat : Database → Flash → Flash
  with_lat db flash = set_number type_i64 d_c_lat db.device.perm.coord.latitude (with_id db flash)

  abbrev with_long : Database → Flash → Flash
  with_long db flash =
      set_number type_i64 d_c_long db.device.perm.coord.longitude (with_lat db flash)

  -- Each row, as it is read behind all of them.
  pub got_crc :
      (db : Database) (flash : Flash)
      → db.device.perm.checksum < 4294967296
      → nvs_get (written db flash) type_u32 d_crc 4 ≡ (0, number (pos db.device.perm.checksum))
  got_crc db flash h =
      behind type_u32 type_u32 ds_crc d_crc _ 4 (with_long db flash) (λ e. ground arith)
      ∙ behind type_i64 type_u32 d_c_long d_crc _ 4 (with_lat db flash) (λ e. ground arith)
      ∙ behind type_i64 type_u32 d_c_lat d_crc _ 4 (with_id db flash) (λ e. ground arith)
      ∙ behind type_u32 type_u32 d_unique_id d_crc _ 4 (with_crc db flash) (λ e. ground arith)
      ∙ its type_u32 d_crc (pos db.device.perm.checksum) 4 flash h

  pub got_unique_id :
      (db : Database) (flash : Flash)
      → db.device.perm.unique_id < 4294967296
      → nvs_get (written db flash) type_u32 d_unique_id 4
        ≡ (0, number (pos db.device.perm.unique_id))
  got_unique_id db flash h =
      behind type_u32 type_u32 ds_crc d_unique_id _ 4 (with_long db flash) (λ e. ground arith)
      ∙ behind type_i64 type_u32 d_c_long d_unique_id _ 4 (with_lat db flash) (λ e. ground arith)
      ∙ behind type_i64 type_u32 d_c_lat d_unique_id _ 4 (with_id db flash) (λ e. ground arith)
      ∙ its type_u32 d_unique_id (pos db.device.perm.unique_id) 4 (with_crc db flash) h

  pub got_latitude :
      (db : Database) (flash : Flash)
      → Fits type_i64 db.device.perm.coord.latitude
      → nvs_get (written db flash) type_i64 d_c_lat 8 ≡ (0, number db.device.perm.coord.latitude)
  got_latitude db flash h =
      behind type_u32 type_i64 ds_crc d_c_lat _ 8 (with_long db flash) (λ e. ground arith)
      ∙ behind type_i64 type_i64 d_c_long d_c_lat _ 8 (with_lat db flash) (λ e. ground arith)
      ∙ its type_i64 d_c_lat db.device.perm.coord.latitude 8 (with_id db flash) h

  pub got_longitude :
      (db : Database) (flash : Flash)
      → Fits type_i64 db.device.perm.coord.longitude
      → nvs_get (written db flash) type_i64 d_c_long 8 ≡ (0, number db.device.perm.coord.longitude)
  got_longitude db flash h =
      behind type_u32 type_i64 ds_crc d_c_long _ 8 (with_long db flash) (λ e. ground arith)
      ∙ its type_i64 d_c_long db.device.perm.coord.longitude 8 (with_lat db flash) h

  pub got_ds :
      (db : Database) (flash : Flash)
      → db.ds.perm.checksum < 4294967296
      → nvs_get (written db flash) type_u32 ds_crc 4 ≡ (0, number (pos db.ds.perm.checksum))
  got_ds db flash h = its type_u32 ds_crc (pos db.ds.perm.checksum) 4 (with_long db flash) h
