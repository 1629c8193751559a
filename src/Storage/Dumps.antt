-- ===== src/Storage/Dumps.antt =====
-- storage.c: the ways that the debounced dump takes.
use es_inverter.Base.{
  ℕ, ◌<◌, ◌≡◌, refl, ◌∙◌, ◌⊎◌, inl, inr, arith, Bool, true, false, not, ◌&&◌, [], Bytes, bit_and,
  ◌==◌, pos,
}
use es_inverter.Rs232.Memory.{done}
use es_inverter.Storage.Mapper.{
  type_u32, d_crc, ds_crc, number, section_device, section_ds, find_entry_db_idx,
}
use es_inverter.Storage.Nvs.{Nvs}
use es_inverter.Storage.Dump.{
  State, device_bytes, requested, save_crc_of_section, update_checksums, dump, dump_check,
}
use es_inverter.Storage.Room.{HasRoom}

module _ (nvs : Nvs) (crc32 : Bytes → ℕ) (room : HasRoom nvs) where
  open nvs use {Flash, nvs_open, nvs_set, nvs_get, nvs_commit}

  -- The checksum of the device, and whether a requested checksum differs from the one in memory.
  abbrev pub device_crc : State Flash → ℕ
  device_crc s = crc32 (device_bytes s.database.device.perm)

  abbrev pub device_differs : State Flash → Bool
  device_differs s =
      requested s.dump_request section_device
      && not (device_crc s == s.database.device.perm.checksum)

  abbrev pub ds_differs : State Flash → Bool
  ds_differs s =
      requested s.dump_request section_ds && not (crc32 [] == s.database.ds.perm.checksum)

  -- The flash after a dump, with the checksum of the device written or not.
  abbrev pub written : ℕ → Flash → Flash
  written crc f = (nvs_commit (nvs_set (nvs_open f).1 type_u32 d_crc (number (pos crc))).1).1

  abbrev pub unwritten : Flash → Flash
  unwritten f = (nvs_commit (nvs_open f).1).1

  pub get_written :
      (crc : ℕ) (f : Flash)
      → crc < 4294967296
      → (nvs_get (written crc f) type_u32 d_crc 4 ≡ (0, number (pos crc)))
        × (nvs_get (written crc f) type_u32 ds_crc 4 ≡ nvs_get f type_u32 ds_crc 4)
  get_written crc f h = (
    room.get_commit _ type_u32 d_crc 4 ∙ room.get_set (nvs_open f).1 type_u32 d_crc (pos crc) 4 h,
    room.get_commit _ type_u32 ds_crc 4
        ∙ room.get_other (nvs_open f).1 type_u32 type_u32 d_crc ds_crc _ 4 (λ e. ground arith)
        ∙ room.get_open f type_u32 ds_crc 4,
  )

  pub get_unwritten :
      (f : Flash)
      → (nvs_get (unwritten f) type_u32 d_crc 4 ≡ nvs_get f type_u32 d_crc 4)
        × (nvs_get (unwritten f) type_u32 ds_crc 4 ≡ nvs_get f type_u32 ds_crc 4)
  get_unwritten f = (
    room.get_commit _ type_u32 d_crc 4 ∙ room.get_open f type_u32 d_crc 4,
    room.get_commit _ type_u32 ds_crc 4 ∙ room.get_open f type_u32 ds_crc 4,
  )

  pub idle :
      (s : State Flash)
      → (bit_and s.dump_request 6 == 0) ≡ true
      → dump_check nvs crc32 s ≡ done (s, [])
  unfolding dump_check
  idle s h = rw h refl

  -- Nothing was requested that had changed.
  pub no_dump :
      (s : State Flash)
      → (bit_and s.dump_request 6 == 0) ≡ false
      → (update_checksums nvs crc32 s).dump_request ≡ 0
      → dump_check nvs crc32 s ≡ done (update_checksums nvs crc32 s, [])
  unfolding dump_check
  no_dump s h e = rw (h, e) refl

  -- The datasets only were requested, and changed.
  pub ds_dump :
      (s : State Flash)
      → (bit_and s.dump_request 6 == 0) ≡ false
      → (update_checksums nvs crc32 s).dump_request ≡ 4
      → dump_check nvs crc32 s
        ≡ done (
          record (update_checksums nvs crc32 s) {
            dump_request = 0;
            flash = unwritten (update_checksums nvs crc32 s).flash;
          },
          (update_checksums nvs crc32 s).storage_slist,
        )
  unfolding dump_check dump save_crc_of_section
  ds_dump s h e =
      let f : Flash = (update_checksums nvs crc32 s).flash in
      rw (h, e, room.open_ok f, room.commit_ok (nvs_open f).1) refl

  -- The device was requested, and changed.
  pub device_dump :
      (s : State Flash) (r : ℕ)
      → (bit_and s.dump_request 6 == 0) ≡ false
      → (update_checksums nvs crc32 s).dump_request ≡ r
      → (r ≡ 2) ⊎ (r ≡ 6)
      → (update_checksums nvs crc32 s).database.device.perm.checksum < 4294967296
      → dump_check nvs crc32 s
        ≡ done (
          record (update_checksums nvs crc32 s) {
            dump_request = 0;
            flash =
                written
                  (update_checksums nvs crc32 s).database.device.perm.checksum
                  (update_checksums nvs crc32 s).flash;
          },
          (update_checksums nvs crc32 s).storage_slist,
        )
  unfolding dump_check dump save_crc_of_section find_entry_db_idx
  device_dump s r h e (inl two) small =
      let f : Flash = (update_checksums nvs crc32 s).flash in
      let v = pos (update_checksums nvs crc32 s).database.device.perm.checksum in
      rw
        (
          h,
          e,
          two,
          room.open_ok f,
          room.set_ok (nvs_open f).1 type_u32 d_crc v small,
          room.commit_ok (nvs_set (nvs_open f).1 type_u32 d_crc (number v)).1,
        )
        refl
  device_dump s r h e (inr six) small =
      let f : Flash = (update_checksums nvs crc32 s).flash in
      let v = pos (update_checksums nvs crc32 s).database.device.perm.checksum in
      rw
        (
          h,
          e,
          six,
          room.open_ok f,
          room.set_ok (nvs_open f).1 type_u32 d_crc v small,
          room.commit_ok (nvs_set (nvs_open f).1 type_u32 d_crc (number v)).1,
        )
        refl
