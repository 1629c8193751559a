-- ===== src/Storage/Room.antt =====
-- storage.c: a flash that has room, what a saved member leaves there, and what a start reads.
use es_inverter.Base.{ℕ, ◌<◌, ◌≡◌, ◌≢◌, refl, sym, ◌∙◌, Bytes, ℤ, pos, negsuc}
use es_inverter.Rs232.Memory.{done}
use es_inverter.Storage.Mapper.{
  NvsType, type_u32, type_i64, Key, d_unique_id, d_c_lat, d_c_long, device_unique_id,
  device_latitude, device_longitude, Cell, number, section_device, get_field, find_entry_db_idx,
}
use es_inverter.Storage.Nvs.{Nvs, process_db_entry}
use es_inverter.Storage.Dump.{State, section_dump_request, storage_save_db_entry}

-- A number is of the type that is stored; only the two types of the table matter.
abbrev pub Fits : NvsType → ℤ → Type 0
Fits type_u32 (pos n) = n < 4294967296
Fits type_i64 (pos n) = n < 9223372036854775808
Fits type_i64 (negsuc n) = n < 9223372036854775808
Fits _ _ = ⊥

-- A flash with room: calls succeed, a number that is set is got, under its own key only, and a start
-- finds what was got when it was committed. Of what is not committed nothing is said.
pub record HasRoom (nvs : Nvs) : Type 0 where
  pub open_ok : (f : nvs.Flash) → (nvs.nvs_open f).0 ≡ 0
  pub get_open :
      (f : nvs.Flash) (t : NvsType) (k : Key) (size : ℕ)
      → nvs.nvs_get (nvs.nvs_open f).1 t k size ≡ nvs.nvs_get f t k size
  pub commit_ok : (f : nvs.Flash) → (nvs.nvs_commit f).0 ≡ 0
  pub get_commit :
      (f : nvs.Flash) (t : NvsType) (k : Key) (size : ℕ)
      → nvs.nvs_get (nvs.nvs_commit f).1 t k size ≡ nvs.nvs_get f t k size
  pub set_ok :
      (f : nvs.Flash) (t : NvsType) (k : Key) (v : ℤ)
      → Fits t v
      → (nvs.nvs_set f t k (number v)).0 ≡ 0
  pub get_set :
      (f : nvs.Flash) (t : NvsType) (k : Key) (v : ℤ) (size : ℕ)
      → Fits t v
      → nvs.nvs_get (nvs.nvs_set f t k (number v)).1 t k size ≡ (0, number v)
  pub get_other :
      (f : nvs.Flash) (t u : NvsType) (k other : Key) (c : Cell) (size : ℕ)
      → k ≢ other
      → nvs.nvs_get (nvs.nvs_set f t k c).1 u other size ≡ nvs.nvs_get f u other size
  pub get_power_up :
      (f : nvs.Flash) (t : NvsType) (k : Key) (size : ℕ)
      → nvs.nvs_get (nvs.power_up (nvs.nvs_commit f).1) t k size ≡ nvs.nvs_get f t k size

-- Nothing that was set would be lost.
abbrev pub IsCommitted : (nvs : Nvs) → nvs.Flash → Type 0
IsCommitted nvs f =
    (t : NvsType) (k : Key) (size : ℕ)
    → nvs.nvs_get (nvs.power_up f) t k size ≡ nvs.nvs_get f t k size

module _ (nvs : Nvs) (crc32 : Bytes → ℕ) (room : HasRoom nvs) where
  open nvs use {Flash, nvs_open, nvs_set, nvs_get, nvs_commit}

  pub nvs_commit-IsCommitted : (f : Flash) → IsCommitted nvs (nvs_commit f).1
  nvs_commit-IsCommitted f t k size =
      room.get_power_up f t k size ∙ sym (room.get_commit f t k size)

  -- The flash behind a number that was set.
  abbrev pub put : Flash → NvsType → Key → ℤ → Flash
  put flash t k v = (nvs_set (nvs_open flash).1 t k (number v)).1

  pub saved_unique_id :
      (s : State Flash) (v : ℤ)
      → Fits type_u32 v
      → get_field device_unique_id s.database ≡ number v
      → storage_save_db_entry nvs crc32 s device_unique_id
        ≡ done (
            section_dump_request nvs crc32 section_device
              (record s { flash = put s.flash type_u32 d_unique_id v }))
  unfolding storage_save_db_entry find_entry_db_idx process_db_entry
  saved_unique_id s v h e =
      rw (room.open_ok s.flash, e, room.set_ok (nvs_open s.flash).1 type_u32 d_unique_id v h) refl

  pub saved_latitude :
      (s : State Flash) (v : ℤ)
      → Fits type_i64 v
      → get_field device_latitude s.database ≡ number v
      → storage_save_db_entry nvs crc32 s device_latitude
        ≡ done (
            section_dump_request nvs crc32 section_device
              (record s { flash = put s.flash type_i64 d_c_lat v }))
  unfolding storage_save_db_entry find_entry_db_idx process_db_entry
  saved_latitude s v h e =
      rw (room.open_ok s.flash, e, room.set_ok (nvs_open s.flash).1 type_i64 d_c_lat v h) refl

  pub saved_longitude :
      (s : State Flash) (v : ℤ)
      → Fits type_i64 v
      → get_field device_longitude s.database ≡ number v
      → storage_save_db_entry nvs crc32 s device_longitude
        ≡ done (
            section_dump_request nvs crc32 section_device
              (record s { flash = put s.flash type_i64 d_c_long v }))
  unfolding storage_save_db_entry find_entry_db_idx process_db_entry
  saved_longitude s v h e =
      rw (room.open_ok s.flash, e, room.set_ok (nvs_open s.flash).1 type_i64 d_c_long v h) refl

  pub got_same :
      (flash : Flash) (t : NvsType) (k : Key) (v : ℤ) (size : ℕ)
      → Fits t v
      → nvs_get (put flash t k v) t k size ≡ (0, number v)
  got_same flash t k v size h = room.get_set (nvs_open flash).1 t k v size h

  pub got_other :
      (flash : Flash) (t u : NvsType) (k other : Key) (v : ℤ) (size : ℕ)
      → k ≢ other
      → nvs_get (put flash t k v) u other size ≡ nvs_get flash u other size
  got_other flash t u k other v size ne =
      room.get_other (nvs_open flash).1 t u k other (number v) size ne
      ∙ room.get_open flash u other size
