-- ===== src/Inverter/Meas.antt =====
-- inverter.c: the grid, the battery and the energies, and the status of the inverter. `now` is what
-- `time` returns. A product of a power and a difference of times is taken to fit 64 bits.
use es_inverter.Base.{
  ℕ, Bool, true, false, Option, none, some, if◌then◌else◌, ◌==◌, ℤ, pos, ◌+ℤ◌, ◌-ℤ◌, ◌*ℤ◌, ltb_ℤ,
  is_zero, to_word, Bytes, div_ℤ,
}

-- The samples, which nothing reads, are left out.
pub record GridMeas : Type 0 where
  pub timestamp : ℤ
  pub voltage : ℕ
  pub power : ℕ
  pub freq : ℕ

pub record BatteryMeas : Type 0 where
  pub timestamp : ℤ
  pub voltage : ℕ
  pub charge_power : ℤ

-- The energies of `inv_energy_meas_t`, in Ws.
pub record EnergyMeas : Type 0 where
  pub grid_consumed : ℕ
  pub grid_provided : ℕ
  pub ac_output : ℕ
  pub pv : ℕ
  pub battery_charge : ℕ
  pub battery_discharge : ℕ

pub record InvStatus : Type 0 where
  pub mode : ℕ
  pub status_flags : ℕ
  pub warning_flags : ℕ
  pub fault_code : ℕ
  pub changed : Bool

pub record InvInfo : Type 0 where
  pub model : Bytes
  pub fw_ver : ℕ
  pub protocol_ver : ℕ

-- An integer added to, and taken from, a 64-bit word.
abbrev pub plus_word : ℕ → ℤ → ℕ
plus_word w v = to_word 18446744073709551616 (pos w +ℤ v)

abbrev pub minus_word : ℕ → ℤ → ℕ
minus_word w v = to_word 18446744073709551616 (pos w -ℤ v)

unfoldable pub inv_set_meas_grid : ℤ → ℕ → ℤ → ℕ → GridMeas × EnergyMeas → GridMeas × EnergyMeas
inv_set_meas_grid now voltage power freq (grid, e) =
    let delta : ℤ = div_ℤ (pos grid.power *ℤ (now -ℤ grid.timestamp) +ℤ pos 500) 1000 in
    let counted : EnergyMeas =
      if ltb_ℤ delta (pos 0)
      then record e { grid_provided = minus_word e.grid_provided delta }
      else record e { grid_consumed = plus_word e.grid_consumed delta } in
    let measured : GridMeas = record {
      timestamp = now;
      voltage = voltage;
      power = to_word 65536 power;
      freq = freq;
    } in
    (measured, if is_zero grid.timestamp then e else counted)

-- The energy of an interval, added to what was charged or to what was discharged.
unfoldable pub add_battery : ℤ → EnergyMeas → EnergyMeas
add_battery delta e =
    if ltb_ℤ (pos 0) delta
    then record e { battery_charge = plus_word e.battery_charge delta }
    else record e { battery_discharge = minus_word e.battery_discharge delta }

unfoldable pub inv_set_meas_battery :
    ℤ → ℕ → ℤ → BatteryMeas × EnergyMeas → BatteryMeas × EnergyMeas
inv_set_meas_battery now voltage power (battery, e) =
    let delta : ℤ = battery.charge_power *ℤ (now -ℤ battery.timestamp) in
    (
      record { timestamp = now; voltage = voltage; charge_power = power },
      if is_zero battery.timestamp then e else add_battery delta e,
    )

unfoldable pub inv_set_status : ℕ → InvStatus → InvStatus
inv_set_status status_flags s =
    if s.status_flags == status_flags
    then s
    else record s { status_flags = status_flags; changed = true }

unfoldable pub inv_set_warnings : ℕ → InvStatus → InvStatus
inv_set_warnings warning_flags s =
    if s.warning_flags == warning_flags
    then s
    else record s { warning_flags = warning_flags; changed = true }

unfoldable pub inv_set_fault : ℕ → InvStatus → InvStatus
inv_set_fault fault_code s =
    if s.fault_code == fault_code then s else record s { fault_code = fault_code; changed = true }

-- With the status that is sent, if it changed.
unfoldable pub inv_set_mode : ℕ → InvStatus → InvStatus × Option InvStatus
inv_set_mode mode s =
    let set : InvStatus = if s.mode == mode then s else record s { mode = mode; changed = true } in
    let sent : InvStatus = record set { changed = false } in
    if set.changed then (sent, some sent) else (set, none)

-- The model given is not stored.
unfoldable pub inv_set_model : Bytes → ℕ → InvInfo → InvInfo
inv_set_model model data_len info = info

unfoldable pub inv_set_fw_ver : ℕ → InvInfo → InvInfo
inv_set_fw_ver fw_ver info = if info.fw_ver == fw_ver then info else record info { fw_ver = fw_ver }
