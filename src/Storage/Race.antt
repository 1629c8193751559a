-- ===== src/Storage/Race.antt =====
-- storage.c: a setter's step between the two halves of a dump.
use es_inverter.Base.{ℕ, ◌<◌, ◌≡◌, ◌≢◌, refl, subst, arith, true, false, [], Bytes, ◌==◌, pos}
use es_inverter.Rs232.Memory.{done}
use es_inverter.Storage.Dump.{
  State, device_bytes, update_checksums, dump, dump_check, save_crc_of_section,
  section_dump_request,
}
use es_inverter.Storage.Mapper.{type_u32, d_crc, number, find_entry_db_idx}
use es_inverter.Storage.Nvs.{Nvs}
use es_inverter.Storage.Persist.{with_unique_id, storage_set_device_unique_id_lem}
use es_inverter.Storage.Room.{HasRoom}
use es_inverter.Storage.Steps.{
  Config, checked, unscheduled, set_unique_id, check, write, Reach, here, next,
}

module _ (nvs : Nvs) (crc32 : Bytes → ℕ) (room : HasRoom nvs) where
  open nvs use {Flash, nvs_open, nvs_set, nvs_get, nvs_commit}

  abbrev crc_of : State Flash → ℕ
  crc_of s = crc32 (device_bytes s.database.device.perm)

  -- The state with the checksum of the device updated.
  abbrev summed : State Flash → State Flash
  summed s = record s {
    dump_scheduled = false;
    database = record (s.database) {
      device = record { perm = record (s.database.device.perm) { checksum = crc_of s } };
    };
  }

  checked_differs :
      (s : State Flash)
      → s.dump_request ≡ 2
      → crc_of s ≢ s.database.device.perm.checksum
      → checked nvs crc32 (unscheduled nvs crc32 s) ≡ record { storage = summed s; dumping = true }
  unfolding checked update_checksums
  checked_differs s two ne =
      let differs : (crc_of s == s.database.device.perm.checksum) ≡ false = ground arith in
      rw (two, differs) refl

  abbrev after_dump : State Flash → State Flash
  after_dump s = record s {
    dump_request = 0;
    flash =
        (nvs_commit
          (nvs_set (nvs_open s.flash).1 type_u32 d_crc
            (number (pos s.database.device.perm.checksum))).1).1;
  }

  dump_two :
      (s : State Flash)
      → s.dump_request ≡ 2
      → s.database.device.perm.checksum < 4294967296
      → dump nvs crc32 s ≡ done (after_dump s, s.storage_slist)
  unfolding dump save_crc_of_section find_entry_db_idx
  dump_two s two h =
      rw
        (
          two,
          room.open_ok s.flash,
          room.set_ok (nvs_open s.flash).1 type_u32 d_crc (pos s.database.device.perm.checksum) h,
          room.commit_ok
              (nvs_set (nvs_open s.flash).1 type_u32 d_crc
                (number (pos s.database.device.perm.checksum))).1,
        )
        refl

  -- With a flash that has room, a dump requested for the device, and its checksum out of date: a
  -- unique id that is set between the two halves of that dump is in memory, but the request it made
  -- is gone, the checksum is the one of before, and the next dump does nothing: the callbacks are
  -- not called for it.
  pub dump_check-Reach :
      (s : State Flash) (u : ℕ)
      → s.dump_request ≡ 2
      → s.dump_scheduled ≡ true
      → crc32 (device_bytes s.database.device.perm) ≢ s.database.device.perm.checksum
      → crc32 (device_bytes s.database.device.perm) < 4294967296
      → u < 4294967296
      → (t : State Flash) × Reach nvs crc32
          (record { storage = s; dumping = false })
          (record { storage = t; dumping = false })
        × (t.database.device.perm.unique_id ≡ u)
        × (t.dump_request ≡ 0)
        × (t.database.device.perm.checksum ≡ crc32 (device_bytes s.database.device.perm))
        × (dump_check nvs crc32 t ≡ done (t, []))
  unfolding dump_check section_dump_request
  dump_check-Reach s u two scheduled ne small h =
      let mid : State Flash = with_unique_id nvs crc32 room (summed s) u in
      let first : Reach nvs crc32 (record { storage = s; dumping = false })
          (record { storage = summed s; dumping = true }) =
        subst (λ (c : Config Flash). Reach nvs crc32 (record { storage = s; dumping = false }) c)
          (checked_differs s two ne) (next here (check refl scheduled)) in
      let second : Reach nvs crc32 (record { storage = s; dumping = false })
          (record { storage = mid; dumping = true }) =
        next first
          (set_unique_id u h (storage_set_device_unique_id_lem nvs crc32 room (summed s) u h)) in
      let request : mid.dump_request ≡ 2 = rw two refl in
      (
        after_dump mid,
        next second (write refl (dump_two mid request small)),
        refl,
        refl,
        refl,
        refl,
      )
