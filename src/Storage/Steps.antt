-- ===== src/Storage/Steps.antt =====
-- storage.c: the setters and the debounced dump as steps of two tasks. The dump lets go of the mutex
-- between its checksums and its writes, so that a setter's step may come between.
use es_inverter.Base.{
  ℕ, ◌<◌, ◌≡◌, arith, Bool, true, false, List, [], Bytes, if◌then◌else◌, ◌==◌, ℤ, bit_and,
}
use es_inverter.Rs232.Memory.{done}
use es_inverter.Storage.Dump.{
  State, storage_mask, update_checksums, dump, dump_check, storage_set_device_unique_id,
  storage_set_coordinates,
}
use es_inverter.Storage.Mapper.{type_i64}
use es_inverter.Storage.Nvs.{Nvs}
use es_inverter.Storage.Room.{Fits}

-- The state, and whether the dump is between its checksums and its writes.
pub record Config (Flash : Type 0) : Type 0 where
  pub storage : State Flash
  pub dumping : Bool

module _ (nvs : Nvs) (crc32 : Bytes → ℕ) where
  open nvs use {Flash}

  -- What `dump_check` does before it gives the mutex back, and whether it goes on.
  unfoldable pub checked : State Flash → Config Flash
  checked s =
      let t : State Flash = update_checksums nvs crc32 s in
      if bit_and s.dump_request storage_mask == 0
      then record { storage = s; dumping = false }
      else if t.dump_request == 0
      then record { storage = t; dumping = false }
      else record { storage = t; dumping = true }

  -- The scheduler calls the dump once for a request.
  abbrev pub unscheduled : State Flash → State Flash
  unscheduled s = record s { dump_scheduled = false }

  pub data Step (c : Config Flash) : Config Flash → Type 0 where
    set_unique_id :
        (u : ℕ) {s : State Flash}
        → u < 4294967296
        → storage_set_device_unique_id nvs crc32 c.storage u ≡ done s
        → Step c (record c { storage = s })
    set_coordinates :
        (lat long : ℤ) {s : State Flash}
        → Fits type_i64 lat
        → Fits type_i64 long
        → storage_set_coordinates nvs crc32 c.storage lat long ≡ done s
        → Step c (record c { storage = s })
    check :
        c.dumping ≡ false
        → c.storage.dump_scheduled ≡ true
        → Step c (checked (unscheduled c.storage))
    write :
        {s : State Flash} {called : List ℕ}
        → c.dumping ≡ true
        → dump nvs crc32 c.storage ≡ done (s, called)
        → Step c (record { storage = s; dumping = false })

  pub data Reach (c : Config Flash) : Config Flash → Type 0 where
    here : Reach c c
    next : {d e : Config Flash} → Reach c d → Step d e → Reach c e

  -- The two halves are the whole.
  pub dump_check-checked :
      (s : State Flash)
      → dump_check nvs crc32 s ≡ (
          if (checked s).dumping
          then dump nvs crc32 (checked s).storage
          else done ((checked s).storage, []))
  unfolding dump_check checked
  dump_check-checked s = ground arith
