-- ===== src/Storage/Meters.antt =====
-- storage.c: the measurements in memory: the current value of each meter, and the series of
-- entries. `compile_time` is what `em_utils_get_compile_time` returns.
use es_inverter.Base.{
  ℕ, ◌+◌, Bool, true, false, if◌then◌else◌, leb, ◌==◌, set, u32, ℤ, pos, negsuc, ◌-ℤ◌, ltb_ℤ,
  to_word,
}
use es_inverter.Storage.Data.{
  Database, StorageMeter, StorageEnergy, max_meter_entries, max_energy_entries,
}

-- `meastype_t`
abbrev pub meastype_voltage_rms : ℕ
meastype_voltage_rms = 0

abbrev pub meastype_current_rms : ℕ
meastype_current_rms = 1

abbrev pub meastype_power_active : ℕ
meastype_power_active = 2

abbrev pub int32_max : ℤ
int32_max = pos 2147483647

-- The result, and `*timestamp`, which an unknown type leaves as it was.
unfoldable pub storage_meter_value : Database → ℕ → ℤ → ℤ × ℤ
storage_meter_value db meas_type timestamp =
    if meas_type == meastype_voltage_rms
    then (db.meter_voltage.current_val, db.meter_voltage.current_val_time)
    else if meas_type == meastype_current_rms
    then (db.meter_current.current_val, db.meter_current.current_val_time)
    else if meas_type == meastype_power_active
    then (db.meter_power.current_val, db.meter_power.current_val_time)
    else (int32_max, timestamp)

abbrev set_current : ℤ → ℤ → StorageMeter → StorageMeter
set_current datetime value m = record m { current_val = value; current_val_time = datetime }

unfoldable pub storage_set_meter_value : Database → ℤ → ℕ → ℤ → ℤ × Database
storage_set_meter_value db datetime meas_type value =
    if meas_type == meastype_voltage_rms
    then (pos 0, record db { meter_voltage = set_current datetime value db.meter_voltage })
    else if meas_type == meastype_current_rms
    then (pos 0, record db { meter_current = set_current datetime value db.meter_current })
    else if meas_type == meastype_power_active
    then (pos 0, record db { meter_power = set_current datetime value db.meter_power })
    else (negsuc 0, db)

-- What happens to the meter that the type selects, under the mutex: the answer asks for a flush.
unfoldable pub add_to_meter : ℤ → ℤ → StorageMeter → Bool × StorageMeter
add_to_meter datetime value meter =
    let ref : ℤ = if meter.len == 0 then datetime else meter.ref_timestamp in
    let added : StorageMeter = record meter {
      len = meter.len + 1;
      ref_timestamp = ref;
      entries = set meter.entries meter.len value;
      t_offset = set meter.t_offset meter.len (to_word 4294967296 (datetime -ℤ ref));
    } in
    if leb max_meter_entries meter.len
    then (true, meter)
    else (leb max_meter_entries added.len, added)

unfoldable pub storage_add_meter_entry : ℤ → Database → ℤ → ℕ → ℤ → Bool × Database
storage_add_meter_entry compile_time db datetime meas_type value =
    let voltage : Bool × StorageMeter = add_to_meter datetime value db.meter_voltage in
    let power : Bool × StorageMeter = add_to_meter datetime value db.meter_power in
    if ltb_ℤ datetime compile_time
    then (false, db)
    else if meas_type == meastype_voltage_rms
    then (voltage.0, record db { meter_voltage = voltage.1 })
    else if meas_type == meastype_power_active
    then (power.0, record db { meter_power = power.1 })
    else (false, db)

unfoldable pub add_to_energy : ℤ → ℕ → StorageEnergy → Bool × StorageEnergy
add_to_energy datetime value energy =
    let first : Bool = energy.len == 0 in
    let ref : ℤ = if first then datetime else energy.ref_timestamp in
    let interval : ℕ =
      if first
      then energy.interval
      else if energy.interval == 0
      then to_word 4294967296 (datetime -ℤ energy.ref_timestamp)
      else energy.interval in
    let added : StorageEnergy = record energy {
      len = energy.len + 1;
      ref_timestamp = ref;
      interval = interval;
      entries = set energy.entries energy.len (u32 value);
    } in
    if leb max_energy_entries energy.len
    then (true, energy)
    else (leb max_energy_entries added.len, added)

unfoldable pub storage_add_energy_entry : ℤ → Database → ℤ → ℕ → Bool × Database
storage_add_energy_entry compile_time db datetime value =
    let energy : Bool × StorageEnergy = add_to_energy datetime value db.meter_energy in
    if ltb_ℤ datetime compile_time
    then (false, db)
    else (energy.0, record db { meter_energy = energy.1 })
