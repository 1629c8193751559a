-- ===== src/Storage/Tests.antt =====
-- The storage at concrete states.
use es_inverter.Base.{
  ℕ, ◌+◌, ◌%◌, ◌<◌, Bytes, ◌≡◌, ◌≢◌, refl, ◌↔◌, arith, true, false, List, [], ◌∷◌, All, ℤ, pos,
  negsuc,
}
use es_inverter.Rs232.Memory.{done, ◌>>=◌}
use es_inverter.Storage.Callbacks.{
  Has, IsUnique, storage_register_on_changed_callback, storage_unregister_on_changed_callback,
  storage_register_on_changed_callback-IsUnique,
}
use es_inverter.Storage.Data.{factory_config}
use es_inverter.Storage.Dump.{
  State, storage_set_device_unique_id, storage_set_coordinates, storage_init,
  storage_force_dump_panic, storage_set_factory_config, dump_check,
}
use es_inverter.Storage.Meters.{storage_meter_value, storage_set_meter_value}
use es_inverter.Storage.Committed.{storage_init-storage_set_coordinates}
use es_inverter.Storage.Requests.{Dumped, dump_check_lem}
use es_inverter.Storage.Example.{Memory, memory, memory-HasRoom, start, sum}
use es_inverter.Storage.Race.{dump_check-Reach}
use es_inverter.Storage.Restart.{IsWords, Restarted, storage_init-save_database}
use es_inverter.Storage.Steps.{Config, Reach}
use es_inverter.Storage.Series.{
  IsDatabase, stored, add_series, storage_meter_value-storage_set_meter_value,
  storage_add_meter_entry-stored,
}

factory-IsDatabase : IsDatabase factory_config
factory-IsDatabase = ground arith

-- A checksum of 32 bits that adds the bytes to 7.
abbrev sum_bytes : ℕ → Bytes → ℕ
sum_bytes acc [] = acc % 4294967296
sum_bytes acc (b ∷ bs) = sum_bytes (acc + b) bs

sum_bytes-lt : (acc : ℕ) (bytes : Bytes) → sum_bytes acc bytes < 4294967296
sum_bytes-lt acc [] = omega arith
sum_bytes-lt acc (b ∷ bs) = sum_bytes-lt (acc + b) bs

abbrev checksum : Bytes → ℕ
checksum bytes = sum_bytes 7 bytes

storage_init-storage_set_coordinates_example :
    (set after restarted : State Memory) × (called : List ℕ) × ((storage_set_device_unique_id memory
          checksum start 77
        >>= λ first. storage_set_coordinates memory checksum first (pos 5) (negsuc 6))
      ≡ done set)
    × (dump_check memory checksum set ≡ done (after, called))
    × (storage_init memory checksum (record after { flash = memory.power_up after.flash })
        ≡ done restarted)
    × (restarted.database.device.perm.unique_id ≡ 77)
    × (restarted.database.device.perm.coord ≡ record { latitude = pos 5; longitude = negsuc 6 })
storage_init-storage_set_coordinates_example =
    storage_init-storage_set_coordinates memory checksum memory-HasRoom start 77 (pos 5) (negsuc 6)
      (omega arith) (omega arith) (omega arith) (ground arith) (λ bytes. sum_bytes-lt 7 bytes)
      (λ e. omega arith)

dump_check_lem_example : Dumped memory sum memory-HasRoom start
dump_check_lem_example = dump_check_lem memory sum memory-HasRoom start (ground arith) (omega arith)

storage_meter_value-storage_set_meter_value_example :
    ((storage_set_meter_value factory_config (pos 20) 1 (pos 230)).0 ≡ pos 0)
    × (storage_meter_value (storage_set_meter_value factory_config (pos 20) 1 (pos 230)).1 1 (pos 3)
        ≡ (pos 230, pos 20))
    × (storage_meter_value (storage_set_meter_value factory_config (pos 20) 1 (pos 230)).1 2 (pos 3)
        ≡ storage_meter_value factory_config 2 (pos 3))
storage_meter_value-storage_set_meter_value_example =
    storage_meter_value-storage_set_meter_value factory_config (pos 20) (pos 230) (pos 3) 1 2
      (λ e. omega arith)

abbrev readings : List (ℤ × ℤ)
readings = (pos 20, pos 230) ∷ (pos 80, pos 231) ∷ []

storage_add_meter_entry-stored_example :
    (stored (add_series (pos 10) 0 readings factory_config).meter_voltage ≡ pos 230 ∷ pos 231 ∷ [])
    × (stored (add_series (pos 10) 2 readings factory_config).meter_power ≡ pos 230 ∷ pos 231 ∷ [])
storage_add_meter_entry-stored_example =
    storage_add_meter_entry-stored (pos 10) readings factory_config (ground arith)
      factory-IsDatabase

storage_register_on_changed_callback-IsUnique_example :
    (after : List ℕ) × (storage_register_on_changed_callback true 200 (100 ∷ 200 ∷ []) ≡ done after)
    × Has 200 after
    × IsUnique after
    × (Has 100 after ↔ Has 100 (100 ∷ 200 ∷ []))
    × All (λ left. left ≢ 200) (storage_unregister_on_changed_callback 200 after)
    × IsUnique (storage_unregister_on_changed_callback 200 after)
    × (Has 100 (storage_unregister_on_changed_callback 200 after) ↔ Has 100 (100 ∷ 200 ∷ []))
storage_register_on_changed_callback-IsUnique_example =
    storage_register_on_changed_callback-IsUnique 200 100 (100 ∷ 200 ∷ []) (ground arith)
      (λ e. omega arith)

start-IsWords : IsWords start.database
start-IsWords = record {
  checksum_word = omega arith;
  unique_id_word = omega arith;
  latitude_word = omega arith;
  longitude_word = omega arith;
  ds_word = omega arith;
}

storage_init-save_database_example :
    ((dumped : State Memory) × (storage_force_dump_panic memory sum start ≡ done dumped)
      × Restarted memory sum memory-HasRoom dumped start.database)
    × ((reset : State Memory) × (storage_set_factory_config memory sum start ≡ done reset)
        × Restarted memory sum memory-HasRoom reset factory_config)
storage_init-save_database_example =
    storage_init-save_database memory sum memory-HasRoom start start-IsWords

abbrev quiet : State Memory → Config Memory
quiet s = record { storage = s; dumping = false }

dump_check-Reach_example :
    (t : State Memory) × Reach memory sum (quiet start) (quiet t)
    × (t.database.device.perm.unique_id ≡ 5)
    × (t.dump_request ≡ 0)
    × (t.database.device.perm.checksum ≡ 20)
    × (dump_check memory sum t ≡ done (t, []))
dump_check-Reach_example =
    dump_check-Reach memory sum memory-HasRoom start 5 refl refl (λ e. omega arith) (omega arith)
      (omega arith)
