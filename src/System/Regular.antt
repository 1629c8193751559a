-- ===== src/System/Regular.antt =====
-- The database of a device that runs: its series stay within their arrays, and its checksum is a word.
use es_inverter.Base.{
  ℕ, ◌<◌, ◌≡◌, arith, inl, inr, ◌==◌, bit_and, Bool-cases, Bytes, ℤ, pos, negsuc, to_word,
}
use es_inverter.Dispatcher.Saved.{IsKept}
use es_inverter.Storage.Data.{Database, StorageDevice, StorageDatasets, factory_config}
use es_inverter.Storage.Dump.{State, check_section, update_checksums, storage_mask}
use es_inverter.Storage.Meters.{
  storage_set_meter_value, storage_add_meter_entry, storage_add_energy_entry,
}
use es_inverter.Storage.Mapper.{
  Section, section_device, Field, device_checksum, device_unique_id, device_latitude,
  device_longitude, ds_checksum, Cell, number, text, put_field,
}
use es_inverter.Storage.Nvs.{Nvs}
use es_inverter.Storage.Room.{HasRoom}
use es_inverter.Storage.Filled.{filled}
use es_inverter.Storage.Series.{IsDatabase, storage_add-IsDatabase}
use es_inverter.Storage.Steps.{checked, unscheduled}

pub record IsRegular (db : Database) : Type 0 where
  pub series : IsDatabase db
  pub checksum_word : db.device.perm.checksum < 4294967296

pub factory-IsRegular : IsRegular factory_config
factory-IsRegular = record { series = ground arith; checksum_word = omega arith }

-- The series are those of another database.
IsDatabase-moved :
    (db : Database) (device : StorageDevice) (ds : StorageDatasets)
    → IsDatabase db
    → IsDatabase (record db { device = device; ds = ds })
IsDatabase-moved db device ds h = record {
  voltage = h.voltage;
  current = h.current;
  power = h.power;
  energy = h.energy;
}

to_word_word : (v : ℤ) → to_word 4294967296 v < 4294967296
to_word_word (pos n) = omega arith
to_word_word (negsuc n) = omega arith

-- What is read from flash is cut to a word, and no row stands in a series.
put_field-IsRegular :
    (field : Field) (c : Cell) (db : Database) → IsRegular db → IsRegular (put_field field c db)
put_field-IsRegular field (text s) db h = h
put_field-IsRegular device_checksum (number v) db h = record {
  series = IsDatabase-moved db _ db.ds h.series;
  checksum_word = to_word_word v;
}
put_field-IsRegular device_unique_id (number v) db h = record {
  series = IsDatabase-moved db _ db.ds h.series;
  checksum_word = h.checksum_word;
}
put_field-IsRegular device_latitude (number v) db h = record {
  series = IsDatabase-moved db _ db.ds h.series;
  checksum_word = h.checksum_word;
}
put_field-IsRegular device_longitude (number v) db h = record {
  series = IsDatabase-moved db _ db.ds h.series;
  checksum_word = h.checksum_word;
}
put_field-IsRegular ds_checksum (number v) db h = record {
  series = IsDatabase-moved db db.device _ h.series;
  checksum_word = h.checksum_word;
}

-- The measurements are apart from the device's part of the database.
pub storage_add-device :
    (compile_time datetime value : ℤ) (meas_type energy : ℕ) (db : Database)
    → ((storage_add_meter_entry compile_time db datetime meas_type value).1.device ≡ db.device)
      × ((storage_add_energy_entry compile_time db datetime energy).1.device ≡ db.device)
      × ((storage_set_meter_value db datetime meas_type value).1.device ≡ db.device)
unfolding storage_add_meter_entry storage_add_energy_entry storage_set_meter_value
storage_add-device compile_time datetime value meas_type energy db =
    (ground arith, ground arith, ground arith)

of_device :
    (db new : Database) → IsDatabase new → new.device ≡ db.device → IsRegular db → IsRegular new
of_device db new series device h = record {
  series = series;
  checksum_word = rw device h.checksum_word;
}

pub storage_add-IsRegular :
    (compile_time datetime value : ℤ) (meas_type energy : ℕ) (db : Database)
    → IsRegular db
    → IsRegular (storage_add_meter_entry compile_time db datetime meas_type value).1
      × IsRegular (storage_add_energy_entry compile_time db datetime energy).1
      × IsRegular (storage_set_meter_value db datetime meas_type value).1
storage_add-IsRegular compile_time datetime value meas_type energy db h =
    let (m, e, v) =
      storage_add-IsDatabase compile_time datetime value meas_type energy db h.series in
    let (md, ed, vd) = storage_add-device compile_time datetime value meas_type energy db in
    (of_device db _ m md h, of_device db _ e ed h, of_device db _ v vd h)

pub IsKept-IsRegular :
    {F : Type 0} {s t : State F} → IsKept s t → IsRegular s.database → IsRegular t.database
IsKept-IsRegular k h = record {
  series = record {
    voltage = rw k.voltage h.series.voltage;
    current = rw k.current h.series.current;
    power = rw k.power h.series.power;
    energy = rw k.energy h.series.energy;
  };
  checksum_word = rw k.checksum h.checksum_word;
}

check_section-word :
    (which : Section) (crc checksum request : ℕ)
    → crc < 4294967296
    → checksum < 4294967296
    → (check_section which crc checksum request).1 < 4294967296
check_section-word which crc checksum request h k = ground arith

module _ (nvs : Nvs) (crc32 : Bytes → ℕ) (room : HasRoom nvs) where
  open nvs use {Flash}

  pub filled-IsRegular :
      (flash : Flash) (db : Database) → IsRegular db → IsRegular (filled nvs crc32 room flash db)
  filled-IsRegular flash db h = put_field-IsRegular ds_checksum _ _ (
      put_field-IsRegular device_longitude _ _ (
        put_field-IsRegular device_latitude _ _
          (put_field-IsRegular device_unique_id _ _ (put_field-IsRegular device_checksum _ _ h))))

  -- The halves of the dump: the first may take another checksum, of `esp_rom_crc32_le`.
  summed-IsRegular :
      (s : State Flash)
      → ((bytes : Bytes) → crc32 bytes < 4294967296)
      → IsRegular s.database
      → IsRegular (update_checksums nvs crc32 s).database
  unfolding update_checksums
  summed-IsRegular s word h = record {
    series = IsDatabase-moved s.database _ _ h.series;
    checksum_word = check_section-word section_device _ _ s.dump_request (word _) h.checksum_word;
  }

  pub checked-IsRegular :
      (s : State Flash)
      → ((bytes : Bytes) → crc32 bytes < 4294967296)
      → IsRegular s.database
      → IsRegular (checked nvs crc32 (unscheduled nvs crc32 s)).storage.database
  unfolding checked
  checked-IsRegular s word h =
      let u : State Flash = unscheduled nvs crc32 s in
      let k : IsRegular (update_checksums nvs crc32 u).database = summed-IsRegular u word h in
      elim (Bool-cases (bit_and s.dump_request storage_mask == 0)) [
        | inl idle ↦ rw idle h
        | inr due ↦ elim (Bool-cases ((update_checksums nvs crc32 u).dump_request == 0)) [
          | inl same ↦ rw (due, same) k
          | inr new ↦ rw (due, new) k
        ]
      ]
