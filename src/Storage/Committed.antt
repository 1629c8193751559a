-- ===== src/Storage/Committed.antt =====
-- storage.c: the setters, the debounced dump that commits what they set, and the start that follows.
use es_inverter.Base.{
  ℕ, ◌<◌, ◌≡◌, ◌≢◌, refl, ◌∙◌, ap, ◌⊎◌, inl, inr, arith, false, List, [], Bytes, bit_or, ◌==◌, ℤ,
  pos, Bool-cases,
}
use es_inverter.Rs232.Memory.{done, ◌>>=◌, Outcome-cases}
use es_inverter.Storage.Data.{Database}
use es_inverter.Storage.Dump.{
  State, device_bytes, save_crc_of_section, section_dump_request, update_checksums, dump,
  dump_check, storage_set_device_unique_id, storage_set_coordinates, storage_init,
}
use es_inverter.Storage.Durable.{IsDurable, same-IsDurable, dump_same, dump-IsDurable}
use es_inverter.Storage.Filled.{read_got}
use es_inverter.Storage.Mapper.{type_u32, type_i64, d_crc, number, find_entry_db_idx}
use es_inverter.Storage.Nvs.{Nvs}
use es_inverter.Storage.Persist.{
  with_unique_id, with_coordinates, storage_set_device_unique_id_lem, storage_set_coordinates_lem,
  set_reads,
}
use es_inverter.Storage.Requests.{IsRequest}
use es_inverter.Storage.Room.{Fits, HasRoom, IsCommitted, nvs_commit-IsCommitted}
use es_inverter.Storage.Survives.{power_up-IsDurable, storage_init-IsDurable}

module _ (nvs : Nvs) (crc32 : Bytes → ℕ) (room : HasRoom nvs) where
  open nvs use {Flash, nvs_open, nvs_set, nvs_get, power_up}

  pub dump_returns :
      (s : State Flash)
      → s.database.device.perm.checksum < 4294967296
      → (t : State Flash) × (called : List ℕ) × (dump nvs crc32 s ≡ done (t, called))
  unfolding dump save_crc_of_section find_entry_db_idx
  dump_returns s h =
      let opened : Flash = (nvs_open s.flash).1 in
      let crc : ℤ = pos s.database.device.perm.checksum in
      let ready = room.open_ok s.flash in
      let set = room.set_ok opened type_u32 d_crc crc h in
      let plain = room.commit_ok opened in
      let written = room.commit_ok (nvs_set opened type_u32 d_crc (number crc)).1 in
      elim (Outcome-cases (dump nvs crc32 s)) [
        | inl f ↦ absurd (ground arith)
        | inr ((t, called), e) ↦ (t, called, e)
      ]

  pub dump-IsCommitted :
      (s : State Flash) {t : State Flash} {called : List ℕ}
      → dump nvs crc32 s ≡ done (t, called)
      → IsCommitted nvs t.flash
  dump-IsCommitted s {t} {called} e =
      let (same, flash) = dump_same nvs crc32 room s {t = t} {called = called} e in
      elim flash [
        | inl plain ↦ rw plain (nvs_commit-IsCommitted nvs crc32 room _)
        | inr set ↦ rw set (nvs_commit-IsCommitted nvs crc32 room _)
      ]

  -- The checksums leave the id, the coordinates and the flash.
  update_checksums-IsDurable :
      (s : State Flash)
      → IsDurable nvs crc32 room s
      → IsDurable nvs crc32 room (update_checksums nvs crc32 s)
  unfolding update_checksums
  update_checksums-IsDurable s k =
      same-IsDurable nvs crc32 room s (update_checksums nvs crc32 s) refl refl
        (λ u key size ne. refl) k

  -- The dump is made, of this checksum.
  abbrev Dumps : State Flash → Type 0
  Dumps s =
      (dump_check nvs crc32 s ≡ dump nvs crc32 (update_checksums nvs crc32 s))
      × ((update_checksums nvs crc32 s).database.device.perm.checksum
          ≡ crc32 (device_bytes s.database.device.perm))

  -- A requested dump of a device whose checksum changed is made.
  changed_dump :
      (s : State Flash)
      → (s.dump_request ≡ 2) ⊎ (s.dump_request ≡ 6)
      → crc32 (device_bytes s.database.device.perm) ≢ s.database.device.perm.checksum
      → Dumps s
  unfolding dump_check update_checksums
  changed_dump s requests differs =
      let other : (crc32 (device_bytes s.database.device.perm) == s.database.device.perm.checksum)
          ≡ false =
        ground arith in
      let split = Bool-cases (crc32 [] == s.database.ds.perm.checksum) in
      elim requests [
        | inl two ↦ (rw (two, other) refl, rw (two, other) refl)
        | inr six ↦ elim split [
          | inl same ↦ (rw (six, other, same) refl, rw (six, other) refl)
          | inr new ↦ (rw (six, other, new) refl, rw (six, other) refl)
        ]
      ]

  requested_thrice :
      (r : ℕ)
      → IsRequest r
      → (bit_or (bit_or (bit_or r 2) 2) 2 ≡ 2) ⊎ (bit_or (bit_or (bit_or r 2) 2) 2 ≡ 6)
  requested_thrice r (inl e) = rw e (inl refl)
  requested_thrice r (inr (inl e)) = rw e (inl refl)
  requested_thrice r (inr (inr (inl e))) = rw e (inr refl)
  requested_thrice r (inr (inr (inr e))) = rw e (inr refl)

  -- With a flash that has room, and a checksum of 32 bits that the new values change: after the
  -- unique id and the coordinates are set, in this order, the debounced dump commits them, and a
  -- start after a loss of power finds them, whatever the database and the flash were before, and
  -- whatever was requested.
  pub storage_init-storage_set_coordinates :
      (s : State Flash) (u : ℕ) (lat long : ℤ)
      → u < 4294967296
      → Fits type_i64 lat
      → Fits type_i64 long
      → IsRequest s.dump_request
      → ((bytes : Bytes) → crc32 bytes < 4294967296)
      → crc32 (
          device_bytes (record {
            checksum = s.database.device.perm.checksum;
            unique_id = u;
            coord = record { latitude = lat; longitude = long };
          }))
        ≢ s.database.device.perm.checksum
      → (set after restarted : State Flash) × (called : List ℕ) × ((storage_set_device_unique_id nvs
              crc32 s u
            >>= λ first. storage_set_coordinates nvs crc32 first lat long)
          ≡ done set)
        × (dump_check nvs crc32 set ≡ done (after, called))
        × (storage_init nvs crc32 (record after { flash = power_up after.flash }) ≡ done restarted)
        × (restarted.database.device.perm.unique_id ≡ u)
        × (restarted.database.device.perm.coord ≡ record { latitude = lat; longitude = long })
  unfolding section_dump_request update_checksums
  storage_init-storage_set_coordinates s u lat long hu ha ho is word differs =
      let s1 : State Flash = with_unique_id nvs crc32 room s u in
      let s3 : State Flash = with_coordinates nvs crc32 room s1 lat long in
      let (got_u, got_lat, got_long) = set_reads nvs crc32 room s u lat long hu ha ho in
      let set_durable : IsDurable nvs crc32 room s3 = record {
        id_word = hu;
        latitude_word = ha;
        longitude_word = ho;
        id_kept = read_got nvs crc32 room _ _ _ 4 _ _ got_u;
        latitude_kept = read_got nvs crc32 room _ _ _ 8 _ _ got_lat;
        longitude_kept = read_got nvs crc32 room _ _ _ 8 _ _ got_long;
      } in
      let checked : State Flash = update_checksums nvs crc32 s3 in
      let (dumps, crc) = changed_dump s3 (requested_thrice s.dump_request is) differs in
      let (after, called, written) = dump_returns checked (rw crc (word _)) in
      let same = (dump_same nvs crc32 room checked {t = after} {called = called} written).0 in
      let kept : IsDurable nvs crc32 room after =
        dump-IsDurable nvs crc32 room checked {t = after} {called = called} written
          (update_checksums-IsDurable s3 set_durable) in
      let left : State Flash = record after { flash = power_up after.flash } in
      let found : IsDurable nvs crc32 room left =
        power_up-IsDurable nvs crc32 room after
          (dump-IsCommitted checked {t = after} {called = called} written) kept in
      let (restarted, starts, again, id, coord) =
        storage_init-IsDurable nvs crc32 room left left found refl in
      (
        s3,
        after,
        restarted,
        called,
        rw (storage_set_device_unique_id_lem nvs crc32 room s u hu)
            (storage_set_coordinates_lem nvs crc32 room s1 lat long ha ho),
        dumps ∙ written,
        starts,
        id ∙ ap (λ (db : Database). db.device.perm.unique_id) same,
        coord ∙ ap (λ (db : Database). db.device.perm.coord) same,
      )
