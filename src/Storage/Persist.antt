-- ===== src/Storage/Persist.antt =====
-- storage.c: the members of the database that are set, and what the flash then gives.
use es_inverter.Base.{ℕ, ◌<◌, ◌≡◌, refl, ◌∙◌, arith, Bytes, ℤ, pos}
use es_inverter.Rs232.Memory.{done}
use es_inverter.Storage.Data.{Database}
use es_inverter.Storage.Mapper.{
  type_u32, type_i64, d_unique_id, d_c_lat, d_c_long, number, section_device,
}
use es_inverter.Storage.Nvs.{Nvs}
use es_inverter.Storage.Dump.{
  State, section_dump_request, storage_set_device_unique_id, storage_set_coordinates, set_longitude,
  set_latitude,
}
use es_inverter.Storage.Room.{
  Fits, HasRoom, put, saved_unique_id, saved_latitude, saved_longitude, got_same, got_other,
}

module _ (nvs : Nvs) (crc32 : Bytes → ℕ) (room : HasRoom nvs) where
  open nvs use {Flash, nvs_open, nvs_get}

  -- The states that the setters leave.
  abbrev pub with_unique_id : State Flash → ℕ → State Flash
  with_unique_id s u = section_dump_request nvs crc32 section_device (record s {
    database = record (s.database) {
      device = record { perm = record (s.database.device.perm) { unique_id = u } };
    };
    flash = put nvs crc32 room s.flash type_u32 d_unique_id (pos u);
  })

  abbrev pub with_longitude : State Flash → ℤ → State Flash
  with_longitude s long = section_dump_request nvs crc32 section_device (record s {
    database = set_longitude nvs crc32 long s.database;
    flash = put nvs crc32 room s.flash type_i64 d_c_long long;
  })

  abbrev pub with_latitude : State Flash → ℤ → State Flash
  with_latitude s lat = section_dump_request nvs crc32 section_device (record s {
    database = set_latitude nvs crc32 lat s.database;
    flash = put nvs crc32 room s.flash type_i64 d_c_lat lat;
  })

  abbrev pub with_coordinates : State Flash → ℤ → ℤ → State Flash
  with_coordinates s lat long = with_latitude (with_longitude s long) lat

  pub storage_set_device_unique_id_lem :
      (s : State Flash) (u : ℕ)
      → u < 4294967296
      → storage_set_device_unique_id nvs crc32 s u ≡ done (with_unique_id s u)
  unfolding storage_set_device_unique_id
  storage_set_device_unique_id_lem s u h =
      let db : Database = record (s.database) {
        device = record { perm = record (s.database.device.perm) { unique_id = u } };
      } in
      saved_unique_id nvs crc32 room (record s { database = db }) (pos u) h refl

  pub storage_set_coordinates_lem :
      (s : State Flash) (lat long : ℤ)
      → Fits type_i64 lat
      → Fits type_i64 long
      → storage_set_coordinates nvs crc32 s lat long ≡ done (with_coordinates s lat long)
  unfolding storage_set_coordinates
  storage_set_coordinates_lem s lat long ha ho =
      let s1 : State Flash = record s { database = set_longitude nvs crc32 long s.database } in
      let after : State Flash = with_longitude s long in
      let s2 : State Flash = record after {
        database = set_latitude nvs crc32 lat after.database;
      } in
      rw
        (
          saved_longitude nvs crc32 room s1 long ho refl,
          saved_latitude nvs crc32 room s2 lat ha refl,
        )
        refl

  -- What is got of the three after they are set.
  pub set_reads :
      (s : State Flash) (u : ℕ) (lat long : ℤ)
      → u < 4294967296
      → Fits type_i64 lat
      → Fits type_i64 long
      → (nvs_get (with_coordinates (with_unique_id s u) lat long).flash type_u32 d_unique_id 4
          ≡ (0, number (pos u)))
        × (nvs_get (with_coordinates (with_unique_id s u) lat long).flash type_i64 d_c_lat 8
            ≡ (0, number lat))
        × (nvs_get (with_coordinates (with_unique_id s u) lat long).flash type_i64 d_c_long 8
            ≡ (0, number long))
  unfolding section_dump_request
  set_reads s u lat long hu ha ho =
      let s1 : State Flash = with_unique_id s u in
      let s2 : State Flash = with_longitude s1 long in
      (
        got_other nvs crc32 room s2.flash type_i64 type_u32 d_c_lat d_unique_id lat 4
              (λ e. ground arith)
            ∙ got_other nvs crc32 room s1.flash type_i64 type_u32 d_c_long d_unique_id long 4
                (λ e. ground arith)
            ∙ got_same nvs crc32 room s.flash type_u32 d_unique_id (pos u) 4 hu,
        got_same nvs crc32 room s2.flash type_i64 d_c_lat lat 8 ha,
        got_other nvs crc32 room s2.flash type_i64 type_i64 d_c_lat d_c_long lat 8
              (λ e. ground arith)
            ∙ got_same nvs crc32 room s1.flash type_i64 d_c_long long 8 ho,
      )
