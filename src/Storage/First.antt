-- ===== src/Storage/First.antt =====
-- storage.c: a start on a flash of which nothing is known, such as an empty one.
use es_inverter.Base.{ℕ, ◌<◌, ◌≡◌, refl, inl, inr, arith, Bytes, ◌==◌, ℤ, pos, Bool-cases}
use es_inverter.Rs232.Memory.{done}
use es_inverter.Storage.Data.{factory_config}
use es_inverter.Storage.Dump.{State, storage_init}
use es_inverter.Storage.Durable.{IsDurable, Reads}
use es_inverter.Storage.Filled.{filled, init_fills, filled_lem}
use es_inverter.Storage.Mapper.{
  type_u32, type_i64, Key, d_unique_id, d_c_lat, d_c_long, number, Field, device_unique_id,
  device_latitude, device_longitude, get_field,
}
use es_inverter.Storage.Nvs.{Nvs}
use es_inverter.Storage.Room.{Fits, HasRoom}

-- What is got as a number of 32 or 64 bits is one.
pub record IsTyped (nvs : Nvs) : Type 0 where
  pub got_u32 :
      (f : nvs.Flash) (k : Key) (size : ℕ)
      → (nvs.nvs_get f type_u32 k size).0 ≡ 0
      → (n : ℕ) × (n < 4294967296) × ((nvs.nvs_get f type_u32 k size).1 ≡ number (pos n))
  pub got_i64 :
      (f : nvs.Flash) (k : Key) (size : ℕ)
      → (nvs.nvs_get f type_i64 k size).0 ≡ 0
      → (z : ℤ) × Fits type_i64 z × ((nvs.nvs_get f type_i64 k size).1 ≡ number z)

module _ (nvs : Nvs) (crc32 : Bytes → ℕ) (room : HasRoom nvs) (typed : IsTyped nvs) where
  open nvs use {Flash, nvs_open, nvs_get}

  found_u32 :
      (flash : Flash) (k : Key) (size before : ℕ) (field : Field)
      → get_field field factory_config ≡ number (pos before)
      → before < 4294967296
      → (n : ℕ) × (n < 4294967296) × Reads nvs crc32 room flash type_u32 k size field (pos n)
  found_u32 flash k size before field e h =
      elim (Bool-cases ((nvs_get flash type_u32 k size).0 == 0)) [
        | inl there ↦
            let (n, small, got) = typed.got_u32 flash k size (ground arith) in
            (n, small, rw (there, got) refl)
        | inr missing ↦ (before, h, rw (missing, e) refl)
      ]

  found_i64 :
      (flash : Flash) (k : Key) (size : ℕ) (before : ℤ) (field : Field)
      → get_field field factory_config ≡ number before
      → Fits type_i64 before
      → (z : ℤ) × Fits type_i64 z × Reads nvs crc32 room flash type_i64 k size field z
  found_i64 flash k size before field e h =
      elim (Bool-cases ((nvs_get flash type_i64 k size).0 == 0)) [
        | inl there ↦
            let (z, small, got) = typed.got_i64 flash k size (ground arith) in
            (z, small, rw (there, got) refl)
        | inr missing ↦ (before, h, rw (missing, e) refl)
      ]

  -- Whatever the flash holds, the state behind a start is durable.
  pub storage_init_any :
      (c : State Flash)
      → (t : State Flash) × (storage_init nvs crc32 c ≡ done t) × IsDurable nvs crc32 room t
  storage_init_any c =
      let opened : Flash = (nvs_open c.flash).1 in
      let t : State Flash = record c {
        database = filled nvs crc32 room opened factory_config;
        flash = opened;
      } in
      let (u, small, eu) = found_u32 opened d_unique_id 4 0 device_unique_id refl (omega arith) in
      let (lat, fits_lat, ea) =
        found_i64 opened d_c_lat 8 (pos 5222970) device_latitude refl (omega arith) in
      let (long, fits_long, eo) =
        found_i64 opened d_c_long 8 (pos 2101220) device_longitude refl (omega arith) in
      let (id, coord) = filled_lem nvs crc32 room opened u lat long small eu ea eo in
      (
        t,
        init_fills nvs crc32 room c,
        record {
          id_word = rw id small;
          latitude_word = rw coord fits_lat;
          longitude_word = rw coord fits_long;
          id_kept = rw id eu;
          latitude_kept = rw coord ea;
          longitude_kept = rw coord eo;
        },
      )
