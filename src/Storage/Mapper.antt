-- ===== src/Storage/Mapper.antt =====
-- storage.c: the table `nvs_mapper` of the members of the database that are kept in flash, and what
-- its rows point to.
use es_inverter.Base.{
  ℕ, ◌+◌, Bool, true, false, not, List, [], ◌∷◌, Option, none, some, Bytes, if◌then◌else◌, ◌==◌, ℤ,
  pos, to_word,
}
use es_inverter.Storage.Data.{Database}

-- `nvs_type_t`; `type_any` stands for the types that no case names.
pub data NvsType : Type 0 where
  type_u8 type_i8 type_u16 type_i16 type_u32 type_i32 type_u64 type_i64 : NvsType
  type_str type_blob type_any : NvsType

-- `storage_section_t`
pub data Section : Type 0 where
  section_storage section_device section_ds : Section

-- The keys "d/crc", "d/unique_id", "d/c/lat", "d/c/long" and "ds/crc".
pub data Key : Type 0 where
  d_crc d_unique_id d_c_lat d_c_long ds_crc : Key

-- The members of the database that a row of the table points to.
pub data Field : Type 0 where
  device_checksum device_unique_id device_latitude device_longitude ds_checksum : Field

-- What a value in memory or in flash is.
pub data Cell : Type 0 where
  number : ℤ → Cell
  text : Bytes → Cell

-- A row of the table; a null pointer is `none`.
pub record NvsMapper : Type 0 where
  pub entry_db_ptr : Option Field
  pub entry_size : ℕ
  pub entry_type : NvsType
  pub key : Option Key
  pub section : Section
  pub is_used : Bool

abbrev pub nvs_mapper : List NvsMapper
nvs_mapper =
    record {
      entry_db_ptr = some device_checksum;
      entry_size = 4;
      entry_type = type_u32;
      key = some d_crc;
      section = section_device;
      is_used = true;
    }
    ∷ record {
      entry_db_ptr = some device_unique_id;
      entry_size = 4;
      entry_type = type_u32;
      key = some d_unique_id;
      section = section_device;
      is_used = true;
    }
    ∷ record {
      entry_db_ptr = some device_latitude;
      entry_size = 8;
      entry_type = type_i64;
      key = some d_c_lat;
      section = section_device;
      is_used = true;
    }
    ∷ record {
      entry_db_ptr = some device_longitude;
      entry_size = 8;
      entry_type = type_i64;
      key = some d_c_long;
      section = section_device;
      is_used = true;
    }
    ∷ record {
      entry_db_ptr = some ds_checksum;
      entry_size = 4;
      entry_type = type_u32;
      key = some ds_crc;
      section = section_ds;
      is_used = true;
    }
    ∷ []

abbrev place : Field → ℕ
place device_checksum = 0
place device_unique_id = 1
place device_latitude = 2
place device_longitude = 3
place ds_checksum = 4

abbrev points_to : Field → Option Field → Bool
points_to wanted none = false
points_to wanted (some field) = place wanted == place field

abbrev pub entry_not_found : ℕ
entry_not_found = 0xFFFFFFFF

abbrev find_from : ℕ → List NvsMapper → Field → ℕ
find_from i [] wanted = entry_not_found
find_from i (row ∷ rows) wanted =
    if not row.is_used
    then find_from (i + 1) rows wanted
    else if points_to wanted row.entry_db_ptr
    then i
    else find_from (i + 1) rows wanted

unfoldable pub find_entry_db_idx : Option Field → ℕ
find_entry_db_idx none = entry_not_found
find_entry_db_idx (some wanted) = find_from 0 nvs_mapper wanted

-- The member of the database behind a pointer.
abbrev pub get_field : Field → Database → Cell
get_field device_checksum db = number (pos db.device.perm.checksum)
get_field device_unique_id db = number (pos db.device.perm.unique_id)
get_field device_latitude db = number db.device.perm.coord.latitude
get_field device_longitude db = number db.device.perm.coord.longitude
get_field ds_checksum db = number (pos db.ds.perm.checksum)

abbrev pub put_field : Field → Cell → Database → Database
put_field field (text s) db = db
put_field device_checksum (number v) db = record db {
  device = record { perm = record (db.device.perm) { checksum = to_word 4294967296 v } };
}
put_field device_unique_id (number v) db = record db {
  device = record { perm = record (db.device.perm) { unique_id = to_word 4294967296 v } };
}
put_field device_latitude (number v) db = record db {
  device = record {
    perm = record (db.device.perm) { coord = record (db.device.perm.coord) { latitude = v } };
  };
}
put_field device_longitude (number v) db = record db {
  device = record {
    perm = record (db.device.perm) { coord = record (db.device.perm.coord) { longitude = v } };
  };
}
put_field ds_checksum (number v) db = record db {
  ds = record { perm = record { checksum = to_word 4294967296 v } };
}
