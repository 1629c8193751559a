-- ===== src/Storage/Durable.antt =====
-- storage.c: what the flash holds of the device while setters and dumps interleave.
use es_inverter.Base.{ℕ, ◌<◌, ◌≡◌, ◌≢◌, ◌∙◌, ap, ◌⊎◌, inl, inr, arith, List, Bytes, ℤ, pos}
use es_inverter.Rs232.Memory.{done}
use es_inverter.Storage.Data.{Database, factory_config}
use es_inverter.Storage.Dump.{
  State, update_checksums, dump, save_crc_of_section, section_dump_request,
}
use es_inverter.Storage.Mapper.{
  NvsType, type_u32, type_i64, Key, d_crc, d_unique_id, d_c_lat, d_c_long, number, Field,
  device_unique_id, device_latitude, device_longitude, get_field, find_entry_db_idx,
}
use es_inverter.Storage.Nvs.{Nvs}
use es_inverter.Storage.Persist.{with_unique_id, with_longitude, with_latitude}
use es_inverter.Storage.Filled.{read_cell, read_got, read_same}
use es_inverter.Storage.Room.{Fits, HasRoom, put, got_same, got_other}
use es_inverter.Storage.Steps.{checked}

pub same_done : {A : Type 0} {a b : A} → done a ≡ done b → a ≡ b
same_done e = cc

module _ (nvs : Nvs) (crc32 : Bytes → ℕ) (room : HasRoom nvs) where
  open nvs use {Flash, nvs_open, nvs_set, nvs_get, nvs_commit}

  -- What a start reads of a number, over the value that the factory gave it.
  abbrev pub Reads : Flash → NvsType → Key → ℕ → Field → ℤ → Type 0
  Reads flash t k size field v =
      read_cell nvs crc32 room flash t k size (get_field field factory_config) ≡ number v

  -- A start reads from flash the unique id and the coordinates that are in memory.
  pub record IsDurable (s : State Flash) : Type 0 where
    pub id_word : s.database.device.perm.unique_id < 4294967296
    pub latitude_word : Fits type_i64 s.database.device.perm.coord.latitude
    pub longitude_word : Fits type_i64 s.database.device.perm.coord.longitude
    pub id_kept :
        Reads s.flash type_u32 d_unique_id 4 device_unique_id (pos s.database.device.perm.unique_id)
    pub latitude_kept :
        Reads s.flash type_i64 d_c_lat 8 device_latitude s.database.device.perm.coord.latitude
    pub longitude_kept :
        Reads s.flash type_i64 d_c_long 8 device_longitude s.database.device.perm.coord.longitude

  -- The number that was set is read, and the others as before.
  own :
      (flash : Flash) (t : NvsType) (k : Key) (size : ℕ) (field : Field) (v : ℤ)
      → Fits t v
      → Reads (put nvs crc32 room flash t k v) t k size field v
  own flash t k size field v h =
      read_got nvs crc32 room _ t k size _ (number v) (got_same nvs crc32 room flash t k v size h)

  another :
      (flash : Flash) (t u : NvsType) (k other : Key) (size : ℕ) (field : Field) (v w : ℤ)
      → k ≢ other
      → Reads flash u other size field w
      → Reads (put nvs crc32 room flash t k v) u other size field w
  another flash t u k other size field v w ne e =
      read_same nvs crc32 room flash _ u other size _
        (got_other nvs crc32 room flash t u k other v size ne)
      ∙ e

  pub with_unique_id-IsDurable :
      (s : State Flash) (u : ℕ)
      → u < 4294967296
      → IsDurable s
      → IsDurable (with_unique_id nvs crc32 room s u)
  unfolding section_dump_request
  with_unique_id-IsDurable s u h d = record {
    id_word = h;
    latitude_word = d.latitude_word;
    longitude_word = d.longitude_word;
    id_kept = own s.flash type_u32 d_unique_id 4 device_unique_id (pos u) h;
    latitude_kept =
        another s.flash type_u32 type_i64 d_unique_id d_c_lat 8 device_latitude (pos u) _
          (λ e. ground arith) d.latitude_kept;
    longitude_kept =
        another s.flash type_u32 type_i64 d_unique_id d_c_long 8 device_longitude (pos u) _
          (λ e. ground arith) d.longitude_kept;
  }

  pub with_longitude-IsDurable :
      (s : State Flash) (long : ℤ)
      → Fits type_i64 long
      → IsDurable s
      → IsDurable (with_longitude nvs crc32 room s long)
  unfolding section_dump_request
  with_longitude-IsDurable s long h d = record {
    id_word = d.id_word;
    latitude_word = d.latitude_word;
    longitude_word = h;
    id_kept =
        another s.flash type_i64 type_u32 d_c_long d_unique_id 4 device_unique_id long _
          (λ e. ground arith) d.id_kept;
    latitude_kept =
        another s.flash type_i64 type_i64 d_c_long d_c_lat 8 device_latitude long _
          (λ e. ground arith) d.latitude_kept;
    longitude_kept = own s.flash type_i64 d_c_long 8 device_longitude long h;
  }

  pub with_latitude-IsDurable :
      (s : State Flash) (lat : ℤ)
      → Fits type_i64 lat
      → IsDurable s
      → IsDurable (with_latitude nvs crc32 room s lat)
  unfolding section_dump_request
  with_latitude-IsDurable s lat h d = record {
    id_word = d.id_word;
    latitude_word = h;
    longitude_word = d.longitude_word;
    id_kept =
        another s.flash type_i64 type_u32 d_c_lat d_unique_id 4 device_unique_id lat _
          (λ e. ground arith) d.id_kept;
    latitude_kept = own s.flash type_i64 d_c_lat 8 device_latitude lat h;
    longitude_kept =
        another s.flash type_i64 type_i64 d_c_lat d_c_long 8 device_longitude lat _
          (λ e. ground arith) d.longitude_kept;
  }

  -- A state with this id, these coordinates, and a flash that reads the same of them.
  pub same-IsDurable :
      (s t : State Flash)
      → t.database.device.perm.unique_id ≡ s.database.device.perm.unique_id
      → t.database.device.perm.coord ≡ s.database.device.perm.coord
      → ((u : NvsType) (k : Key) (size : ℕ)
          → d_crc ≢ k
          → nvs_get t.flash u k size ≡ nvs_get s.flash u k size)
      → IsDurable s
      → IsDurable t
  same-IsDurable s t id coord reads d = record {
    id_word = rw id d.id_word;
    latitude_word = rw coord d.latitude_word;
    longitude_word = rw coord d.longitude_word;
    id_kept =
        read_same nvs crc32 room s.flash t.flash type_u32 d_unique_id 4 _
          (reads type_u32 d_unique_id 4 (λ e. ground arith))
        ∙ rw id d.id_kept;
    latitude_kept =
        read_same nvs crc32 room s.flash t.flash type_i64 d_c_lat 8 _
          (reads type_i64 d_c_lat 8 (λ e. ground arith))
        ∙ rw coord d.latitude_kept;
    longitude_kept =
        read_same nvs crc32 room s.flash t.flash type_i64 d_c_long 8 _
          (reads type_i64 d_c_long 8 (λ e. ground arith))
        ∙ rw coord d.longitude_kept;
  }

  pub checked_same :
      (s : State Flash)
      → ((checked nvs crc32 s).storage.database.device.perm.unique_id
          ≡ s.database.device.perm.unique_id)
        × ((checked nvs crc32 s).storage.database.device.perm.coord ≡ s.database.device.perm.coord)
        × ((checked nvs crc32 s).storage.flash ≡ s.flash)
  unfolding checked update_checksums
  checked_same s = ground arith

  -- The flash that a dump leaves.
  abbrev pub dumped : Flash → ℕ → Flash
  dumped flash crc = (nvs_commit (nvs_set (nvs_open flash).1 type_u32 d_crc (number (pos crc))).1).1

  pub dump_same :
      (s : State Flash) {t : State Flash} {called : List ℕ}
      → dump nvs crc32 s ≡ done (t, called)
      → (t.database ≡ s.database)
        × ((t.flash ≡ (nvs_commit (nvs_open s.flash).1).1)
            ⊎ (t.flash ≡ dumped s.flash s.database.device.perm.checksum))
  unfolding dump save_crc_of_section find_entry_db_idx
  dump_same s {t} {called} e = ground arith

  pub dump-IsDurable :
      (s : State Flash) {t : State Flash} {called : List ℕ}
      → dump nvs crc32 s ≡ done (t, called)
      → IsDurable s
      → IsDurable t
  dump-IsDurable s {t} {called} e d =
      let (same, flash) = dump_same s {t = t} {called = called} e in
      let id = ap (λ (db : Database). db.device.perm.unique_id) same in
      let coord = ap (λ (db : Database). db.device.perm.coord) same in
      elim flash [
        | inl plain ↦
            same-IsDurable s t id coord
              (λ u k size ne.
                rw plain
                  (room.get_commit (nvs_open s.flash).1 u k size ∙ room.get_open s.flash u k size))
              d
        | inr set ↦
            same-IsDurable s t id coord
              (λ u k size ne. rw set (
                room.get_commit _ u k size
                ∙ room.get_other (nvs_open s.flash).1 type_u32 u d_crc k _ size ne
                ∙ room.get_open s.flash u k size))
              d
      ]
