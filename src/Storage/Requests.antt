-- ===== src/Storage/Requests.antt =====
-- storage.c: the debounced dump: the requests, the checksums and the callbacks.
use es_inverter.Base.{
  ℕ, ◌<◌, ◌≡◌, refl, ◌⊎◌, inl, inr, ◌||◌, List, [], Bytes, if◌then◌else◌, ◌==◌, pos, Bool-cases,
}
use es_inverter.Rs232.Memory.{done}
use es_inverter.Storage.Mapper.{type_u32, d_crc, ds_crc, number}
use es_inverter.Storage.Nvs.{Nvs}
use es_inverter.Storage.Dump.{State, update_checksums, dump_check}
use es_inverter.Storage.Room.{HasRoom}
use es_inverter.Storage.Dumps.{
  device_crc, device_differs, ds_differs, get_written, get_unwritten, idle, no_dump, ds_dump,
  device_dump,
}

-- The requests that the module makes: no section, the device, the datasets, or both.
abbrev pub IsRequest : ℕ → Type 0
IsRequest r = (r ≡ 0) ⊎ (r ≡ 2) ⊎ (r ≡ 4) ⊎ (r ≡ 6)

module _ (nvs : Nvs) (crc32 : Bytes → ℕ) (room : HasRoom nvs) where
  open nvs use {Flash, nvs_open, nvs_set, nvs_get, nvs_commit}

  -- What a dump comes to: the state after it, and the callbacks called.
  abbrev pub Dumped : State Flash → Type 0
  Dumped s =
      (after : State Flash) × (called : List ℕ) × (dump_check nvs crc32 s ≡ done (after, called))
      × (after.dump_request ≡ 0)
      × (called ≡ (
          if device_differs nvs crc32 room s || ds_differs nvs crc32 room s
          then s.storage_slist
          else []))
      × (nvs_get after.flash type_u32 d_crc 4 ≡ (
          if device_differs nvs crc32 room s
          then (0, number (pos (device_crc nvs crc32 room s)))
          else nvs_get s.flash type_u32 d_crc 4))
      × (nvs_get after.flash type_u32 ds_crc 4 ≡ nvs_get s.flash type_u32 ds_crc 4)

  device-Dumped :
      (s : State Flash) → s.dump_request ≡ 2 → device_crc nvs crc32 room s < 4294967296 → Dumped s
  unfolding dump_check update_checksums
  device-Dumped s device h =
      elim (Bool-cases (device_crc nvs crc32 room s == s.database.device.perm.checksum)) [
        | inl same ↦ (
          update_checksums nvs crc32 s,
          [],
          no_dump nvs crc32 room s (rw device refl) (rw (device, same) refl),
          rw (device, same) refl,
          rw (device, same) refl,
          rw (device, same) refl,
          refl,
        )
        | inr differs ↦
            let crc : (update_checksums nvs crc32 s).database.device.perm.checksum
                ≡ device_crc nvs crc32 room s =
              rw (device, differs) refl in
            (
              _,
              _,
              device_dump nvs crc32 room s 2 (rw device refl) (rw (device, differs) refl) (inl refl)
                  (rw crc h),
              refl,
              rw (device, differs) refl,
              rw (device, differs)
                  (get_written nvs crc32 room (device_crc nvs crc32 room s) s.flash h).0,
              rw (device, differs)
                  (get_written nvs crc32 room (device_crc nvs crc32 room s) s.flash h).1,
            )
      ]

  ds-Dumped :
      (s : State Flash) → s.dump_request ≡ 4 → device_crc nvs crc32 room s < 4294967296 → Dumped s
  unfolding dump_check update_checksums
  ds-Dumped s ds h = elim (Bool-cases (crc32 [] == s.database.ds.perm.checksum)) [
    | inl same ↦ (
      update_checksums nvs crc32 s,
      [],
      no_dump nvs crc32 room s (rw ds refl) (rw (ds, same) refl),
      rw (ds, same) refl,
      rw (ds, same) refl,
      rw ds refl,
      refl,
    )
    | inr differs ↦ (
      _,
      _,
      ds_dump nvs crc32 room s (rw ds refl) (rw (ds, differs) refl),
      refl,
      rw (ds, differs) refl,
      rw ds (get_unwritten nvs crc32 room s.flash).0,
      (get_unwritten nvs crc32 room s.flash).1,
    )
  ]

  both-Dumped :
      (s : State Flash) → s.dump_request ≡ 6 → device_crc nvs crc32 room s < 4294967296 → Dumped s
  unfolding dump_check update_checksums
  both-Dumped s both h =
      elim (Bool-cases (device_crc nvs crc32 room s == s.database.device.perm.checksum)) [
        | inl same ↦ elim (Bool-cases (crc32 [] == s.database.ds.perm.checksum)) [
          | inl ds_same ↦ (
            update_checksums nvs crc32 s,
            [],
            no_dump nvs crc32 room s (rw both refl) (rw (both, same, ds_same) refl),
            rw (both, same, ds_same) refl,
            rw (both, same, ds_same) refl,
            rw (both, same) refl,
            refl,
          )
          | inr ds_differ ↦ (
            _,
            _,
            ds_dump nvs crc32 room s (rw both refl) (rw (both, same, ds_differ) refl),
            refl,
            rw (both, same, ds_differ) refl,
            rw (both, same) (get_unwritten nvs crc32 room s.flash).0,
            (get_unwritten nvs crc32 room s.flash).1,
          )
        ]
        | inr differs ↦
            let crc : (update_checksums nvs crc32 s).database.device.perm.checksum
                ≡ device_crc nvs crc32 room s =
              rw (both, differs) refl in
            elim (Bool-cases (crc32 [] == s.database.ds.perm.checksum)) [
              | inl ds_same ↦ (
                _,
                _,
                device_dump nvs crc32 room s 2 (rw both refl) (rw (both, differs, ds_same) refl)
                    (inl refl) (rw crc h),
                refl,
                rw (both, differs) refl,
                rw (both, differs)
                    (get_written nvs crc32 room (device_crc nvs crc32 room s) s.flash h).0,
                rw (both, differs)
                    (get_written nvs crc32 room (device_crc nvs crc32 room s) s.flash h).1,
              )
              | inr ds_differ ↦ (
                _,
                _,
                device_dump nvs crc32 room s 6 (rw both refl) (rw (both, differs, ds_differ) refl)
                    (inr refl) (rw crc h),
                refl,
                rw (both, differs) refl,
                rw (both, differs)
                    (get_written nvs crc32 room (device_crc nvs crc32 room s) s.flash h).0,
                rw (both, differs)
                    (get_written nvs crc32 room (device_crc nvs crc32 room s) s.flash h).1,
              )
            ]
      ]

  -- With a flash that has room, and for a request that the module makes, a dump leaves no request;
  -- it calls the callbacks just when a requested checksum differs from the one in memory; the
  -- checksum of the device is then the one in flash; the checksum of the datasets in flash is never
  -- written nvs crc32 room.
  pub dump_check_lem :
      (s : State Flash)
      → IsRequest s.dump_request
      → device_crc nvs crc32 room s < 4294967296
      → Dumped s
  dump_check_lem s (inl none) h =
      (s, [], idle nvs crc32 room s (rw none refl), none, rw none refl, rw none refl, refl)
  dump_check_lem s (inr (inl device)) h = device-Dumped s device h
  dump_check_lem s (inr (inr (inl ds))) h = ds-Dumped s ds h
  dump_check_lem s (inr (inr (inr both))) h = both-Dumped s both h
