-- ===== src/Storage/Dump.antt =====
-- storage.c: the setters of the database, the debounced dump of its checksums, and the start. The
-- caller of each function holds the mutex where the source takes it. `crc32` is
-- `esp_rom_crc32_le`, and the request to the scheduler is the flag `dump_scheduled`.
use es_inverter.Base.{
  ℕ, zero, suc, ◌-◌, ◌^◌, ◌/◌, ◌%◌, Bool, true, not, ◌||◌, List, [], ◌∷◌, ◌++◌, Option, none, some,
  Bytes, if◌then◌else◌, ◌==◌, ℤ, pos, to_word, get_elem?, bit_and, bit_or,
}
use es_inverter.Rs232.Memory.{Outcome, done, fault, ◌>>=◌}
use es_inverter.Storage.Data.{Database, FlashDevice, StorageDatasets, StorageDevice, factory_config}
use es_inverter.Storage.Mapper.{
  NvsMapper, Section, section_storage, section_device, section_ds, Field, device_checksum,
  device_unique_id, device_latitude, device_longitude, type_u32, number, entry_not_found,
  nvs_mapper, find_entry_db_idx,
}
use es_inverter.Storage.Nvs.{
  Nvs, nvs_write, esp_ok, esp_err_nvs_not_found, pointed, process_db_entry, clear_unused_db_entries,
  read_db_entries, write_db_entries,
}

-- The static variables of the module, and the flash.
pub record State (Flash : Type 0) : Type 0 where
  pub database : Database
  pub dump_request : ℕ
  pub storage_slist : List ℕ
  pub dump_scheduled : Bool
  pub flash : Flash

abbrev pub section_index : Section → ℕ
section_index section_storage = 0
section_index section_device = 1
section_index section_ds = 2

abbrev pub storage_mask : ℕ
storage_mask = bit_or (2 ^ 1) (2 ^ 2)

abbrev pub requested : ℕ → Section → Bool
requested request section = not (bit_and request (2 ^ section_index section) == 0)

-- A number in the memory of the device, lowest byte first.
abbrev le_bytes : ℕ → ℕ → Bytes
le_bytes zero n = []
le_bytes (suc width) n = n % 256 ∷ le_bytes width (n / 256)

-- The packed structure behind its first member, the checksum.
abbrev pub device_bytes : FlashDevice → Bytes
device_bytes perm =
    le_bytes 4 perm.unique_id
    ++ le_bytes 8 (to_word 18446744073709551616 perm.coord.latitude)
    ++ le_bytes 8 (to_word 18446744073709551616 perm.coord.longitude)

-- A requested section whose checksum is unchanged is no longer requested.
abbrev pub check_section : Section → ℕ → ℕ → ℕ → ℕ × ℕ
check_section section crc checksum request =
    let cleared : ℕ = bit_and request (0xFFFFFFFF - 2 ^ section_index section) in
    if not (requested request section)
    then (request, checksum)
    else if crc == checksum
    then (cleared, checksum)
    else (request, crc)

module _ (nvs : Nvs) (crc32 : Bytes → ℕ) where
  open nvs use {Flash, nvs_open, nvs_set, nvs_commit}

  abbrev row_at : ℕ → Option NvsMapper
  row_at idx = get_elem? nvs_mapper idx

  -- The case of STORAGE_DS has no break and falls into the default, which returns.
  unfoldable pub save_crc_of_section : Flash → Database → Section → Outcome Flash
  save_crc_of_section flash db section_storage = done flash
  save_crc_of_section flash db section_ds = done flash
  save_crc_of_section flash db section_device =
      let idx : ℕ = find_entry_db_idx (some device_checksum) in
      let saved : Outcome Flash = elim (row_at idx) [
        | none ↦ fault
        | some row ↦ elim row.key [
          | none ↦ fault
          | some key ↦
              let (ret, after) =
                nvs_set flash type_u32 key (number (pos db.device.perm.checksum)) in
              if ret == esp_ok then done after else fault
        ]
      ] in
      if idx == entry_not_found then done flash else saved

  -- Under the mutex: the sections that changed stay requested, with their checksums updated.
  unfoldable pub update_checksums : State Flash → State Flash
  update_checksums s =
      let db : Database = s.database in
      let device =
        check_section section_device (crc32 (device_bytes db.device.perm)) db.device.perm.checksum
          s.dump_request in
      let ds = check_section section_ds (crc32 []) db.ds.perm.checksum device.0 in
      record s {
        dump_request = ds.0;
        database = record db {
          device = record { perm = record (db.device.perm) { checksum = device.1 } };
          ds = record { perm = record { checksum = ds.1 } };
        };
      }

  -- After it: the checksums are saved, and the callbacks are called in the order of the list.
  unfoldable pub dump : State Flash → Outcome (State Flash × List ℕ)
  dump s =
      let (ret, opened) = nvs_open s.flash in
      let db : Database = s.database in
      let saved : Outcome Flash = do
        flash ←
            if requested s.dump_request section_device
            then save_crc_of_section opened db section_device
            else done opened
        if requested s.dump_request section_ds
            then save_crc_of_section flash db section_ds
            else done flash
      in let written : Outcome (State Flash × List ℕ) = do
        flash ← saved
        let (committed, after) = nvs_commit flash
        if committed == esp_ok
            then done (record s { dump_request = 0; flash = after }, s.storage_slist)
            else fault
        in if ret == esp_ok then written else fault

  -- The state, and the callbacks called.
  unfoldable pub dump_check : State Flash → Outcome (State Flash × List ℕ)
  dump_check s =
      let checked : State Flash = update_checksums s in
      if bit_and s.dump_request storage_mask == 0
      then done (s, [])
      else if checked.dump_request == 0
      then done (checked, [])
      else dump checked

  unfoldable pub section_dump_request : Section → State Flash → State Flash
  section_dump_request section s = record s {
    dump_request = bit_or s.dump_request (2 ^ section_index section);
    dump_scheduled = true;
  }

  -- The row of a member is written to the flash, and its section requested to be dumped.
  abbrev write_row : State Flash → NvsMapper → Outcome (State Flash)
  write_row s row =
      let (opening, opened) = nvs_open s.flash in
      let written : Outcome (State Flash) = do
        (ret, after, value) ←
            process_db_entry nvs opened (pointed nvs row.entry_db_ptr s.database) row.entry_size
              row.key row.entry_type nvs_write
        done (
            if ret == esp_ok
            then section_dump_request row.section (record s { flash = after })
            else record s { flash = after })
      in if opening == esp_ok || opening == esp_err_nvs_not_found then written else fault

  unfoldable pub storage_save_db_entry : State Flash → Field → Outcome (State Flash)
  storage_save_db_entry s field =
      let idx : ℕ = find_entry_db_idx (some field) in
      let saved : Outcome (State Flash) = elim (row_at idx) [
        | none ↦ fault
        | some row ↦ write_row s row
      ] in
      if idx == entry_not_found then done s else saved

  unfoldable pub save_database : State Flash → Outcome (State Flash)
  save_database s =
      let (ret, opened) = nvs_open s.flash in
      let written : Outcome (State Flash) = do
        flash ← write_db_entries nvs nvs_mapper opened s.database
        let (committed, after) = nvs_commit flash
        if committed == esp_ok then done (record s { flash = after }) else fault
      in if ret == esp_ok then written else fault

  abbrev pub storage_force_dump_panic : State Flash → Outcome (State Flash)
  storage_force_dump_panic s = save_database s

  -- The start of the device, after the mutex is created.
  unfoldable pub storage_init : State Flash → Outcome (State Flash)
  storage_init s =
      let (ret, opened) = nvs_open s.flash in
      let cleared : Flash = clear_unused_db_entries nvs nvs_mapper opened in
      let fresh : State Flash = record s { database = factory_config; flash = opened } in
      let filled : Outcome (State Flash) = do
        db ← read_db_entries nvs nvs_mapper cleared factory_config
        done (record s { database = db; flash = cleared })
      in if ret == esp_ok
        then filled
        else if ret == esp_err_nvs_not_found
        then done fresh
        else fault

  abbrev pub storage_datasets : State Flash → StorageDatasets
  storage_datasets s = s.database.ds

  abbrev pub storage_device : State Flash → StorageDevice
  storage_device s = s.database.device

  unfoldable pub storage_set_device_unique_id : State Flash → ℕ → Outcome (State Flash)
  storage_set_device_unique_id s unique_id =
      let db : Database = s.database in
      storage_save_db_entry
        (record s {
          database = record db {
            device = record { perm = record (db.device.perm) { unique_id = unique_id } };
          };
        })
        device_unique_id

  abbrev pub set_longitude : ℤ → Database → Database
  set_longitude longitude db = record db {
    device = record {
      perm = record (db.device.perm) {
        coord = record (db.device.perm.coord) { longitude = longitude };
      };
    };
  }

  abbrev pub set_latitude : ℤ → Database → Database
  set_latitude latitude db = record db {
    device = record {
      perm = record (db.device.perm) {
        coord = record (db.device.perm.coord) { latitude = latitude };
      };
    };
  }

  unfoldable pub storage_set_coordinates : State Flash → ℤ → ℤ → Outcome (State Flash)
  storage_set_coordinates s latitude longitude = do
    first ←
        storage_save_db_entry (record s { database = set_longitude longitude s.database })
          device_longitude
    storage_save_db_entry (record first { database = set_latitude latitude first.database })
        device_latitude

  unfoldable pub storage_set_factory_config : State Flash → Outcome (State Flash)
  storage_set_factory_config s = save_database (record s { database = factory_config })
