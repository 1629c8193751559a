-- ===== src/Storage/Nvs.antt =====
-- storage.c: the transfers between the database and the flash, a row of the table after another.
-- The flash and the functions `nvs_*` on it are an interface, `Nvs`.
use es_inverter.Base.{
  ℕ, Bool, true, false, not, List, [], ◌∷◌, Option, none, some, if◌then◌else◌, ◌==◌,
}
use es_inverter.Rs232.Memory.{Outcome, done, fault, ◌>>=◌}
use es_inverter.Storage.Data.{Database}
use es_inverter.Storage.Mapper.{
  NvsType, type_u8, type_i8, type_u16, type_i16, type_u32, type_i32, type_u64, type_i64, type_any,
  Key, Field, Cell, NvsMapper, get_field, put_field,
}

pub data NvsAction : Type 0 where
  nvs_read nvs_write : NvsAction

-- The library of the flash partition: each call returns its error code, 0 for ESP_OK. What a start
-- finds of the flash that a stop left is `power_up`: a value that was set and not committed may be
-- lost.
pub record Nvs : Type 1 where
  pub Flash : Type 0
  pub nvs_open : Flash → ℕ × Flash
  pub nvs_set : Flash → NvsType → Key → Cell → ℕ × Flash
  pub nvs_get : Flash → NvsType → Key → ℕ → ℕ × Cell
  pub nvs_erase_key : Flash → Key → ℕ × Flash
  pub nvs_commit : Flash → ℕ × Flash
  pub power_up : Flash → Flash

abbrev pub esp_ok : ℕ
esp_ok = 0

abbrev pub esp_err_invalid_arg : ℕ
esp_err_invalid_arg = 0x102

abbrev pub esp_err_not_supported : ℕ
esp_err_not_supported = 0x106

abbrev pub esp_err_nvs_not_found : ℕ
esp_err_nvs_not_found = 0x1102

-- The assertions on `entry_size`.
abbrev size_fits : NvsType → ℕ → Bool
size_fits type_u8 size = size == 1
size_fits type_i8 size = size == 1
size_fits type_u16 size = size == 2
size_fits type_i16 size = size == 2
size_fits type_u32 size = size == 4
size_fits type_i32 size = size == 4
size_fits type_u64 size = size == 8
size_fits type_i64 size = size == 8
size_fits _ size = true

module _ (nvs : Nvs) where
  open nvs use {Flash, nvs_set, nvs_get, nvs_erase_key}

  -- The calls of the cases, each of which sets or gets a value of its type.
  abbrev transfer : Flash → Cell → ℕ → Key → NvsType → NvsAction → ℕ × Flash × Cell
  transfer flash cell size key type nvs_write =
      let (ret, after) = nvs_set flash type key cell in (ret, after, cell)
  transfer flash cell size key type nvs_read =
      let (ret, read) = nvs_get flash type key size in
      (ret, flash, if ret == esp_ok then read else cell)

  abbrev is_any : NvsType → Bool
  is_any type_any = true
  is_any _ = false

  -- The error code, the flash, and the value behind the pointer.
  unfoldable pub process_db_entry :
      Flash → Option Cell → ℕ → Option Key → NvsType → NvsAction → Outcome (ℕ × Flash × Option Cell)
  process_db_entry flash none size key type action = done (esp_err_invalid_arg, flash, none)
  process_db_entry flash (some cell) size none type action =
      done (esp_err_invalid_arg, flash, some cell)
  process_db_entry flash (some cell) size (some key) type action =
      let (ret, after, value) = transfer flash cell size key type action in
      if size == 0
      then done (esp_err_invalid_arg, flash, some cell)
      else if not (size_fits type size)
      then fault
      else if is_any type
      then done (esp_err_not_supported, flash, some cell)
      else done (ret, after, some value)

  abbrev pub pointed : Option Field → Database → Option Cell
  pointed none db = none
  pointed (some field) db = some (get_field field db)

  abbrev pub write_back : Option Field → Option Cell → Database → Database
  write_back (some field) (some cell) db = put_field field cell db
  write_back _ _ db = db

  unfoldable pub clear_unused_db_entries : List NvsMapper → Flash → Flash
  clear_unused_db_entries [] flash = flash
  clear_unused_db_entries (row ∷ rows) flash =
      let erased : Flash = elim row.key [ none ↦ flash | some key ↦ (nvs_erase_key flash key).1 ] in
      clear_unused_db_entries rows (if row.is_used then flash else erased)

  -- An entry that cannot be read keeps the value that the database has.
  unfoldable pub read_db_entries : List NvsMapper → Flash → Database → Outcome Database
  read_db_entries [] flash db = done db
  read_db_entries (row ∷ rows) flash db =
      let entry : Option Cell = pointed row.entry_db_ptr db in
      let read : Outcome Database = do
        (ret, after, value) ←
            process_db_entry flash entry row.entry_size row.key row.entry_type nvs_read
        done (write_back row.entry_db_ptr value db)
      in do next ← if row.is_used then read else done db; read_db_entries rows flash next

  unfoldable pub write_db_entries : List NvsMapper → Flash → Database → Outcome Flash
  write_db_entries [] flash db = done flash
  write_db_entries (row ∷ rows) flash db =
      let entry : Option Cell = pointed row.entry_db_ptr db in
      let written : Outcome Flash = do
        (ret, after, value) ←
            process_db_entry flash entry row.entry_size row.key row.entry_type nvs_write
        done after
      in do next ← if row.is_used then written else done flash; write_db_entries rows next db
