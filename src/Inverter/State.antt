-- ===== src/Inverter/State.antt =====
-- inverter.c and private/em/defs.h: the measurements of the AC output and the panels, and the whole
-- state of the module. What handles the histories and the averages of the power is declared in no
-- file of the repository, and is the interface PowerApi. Of the history of the energies, whose type
-- is not declared either, these are the members that inverter.c uses.
use es_inverter.Base.{ℕ, ◌*◌, Bool, List, ℤ}
use es_inverter.Inverter.Meas.{GridMeas, BatteryMeas, EnergyMeas, InvStatus, InvInfo}

-- `power_history_last_entry`, `power_history_add_entry`, an assignment of 0 to the size, and
-- `em_utils_set_uint16_add`, `_avg` and `_clear`.
pub record PowerApi : Type 1 where
  pub PowerHistory : Type 0
  pub PowerSet : Type 0
  pub last_entry : PowerHistory → ℤ
  pub add_entry : PowerHistory → ℤ → ℕ → ℤ × PowerHistory
  pub clear_size : PowerHistory → PowerHistory
  pub set_add : PowerSet → ℕ → Bool × PowerSet
  pub set_avg : PowerSet → ℕ
  pub set_clear : PowerSet → PowerSet

-- Less the samples, which nothing reads.
pub record AcOutputMeas (PowerSet : Type 0) : Type 0 where
  pub timestamp : ℤ
  pub voltage : ℕ
  pub power : PowerSet
  pub freq : ℕ
  pub output_load : ℕ
  pub power_factor : ℕ

-- Less the samples and the count of strings.
pub record PvMeas (PowerSet : Type 0) : Type 0 where
  pub timestamp : ℤ
  pub voltage : ℕ
  pub power : PowerSet

pub record EnergyHistory : Type 0 where
  pub size : ℕ
  pub ref_timestamp : ℤ
  pub ref_grid : ℕ
  pub ref_ac_output : ℕ
  pub ref_pv : ℕ
  pub ref_battery_charge : ℕ
  pub ref_battery_discharge : ℕ
  pub grid : List ℕ
  pub ac_output : List ℕ
  pub pv : List ℕ
  pub battery_charge : List ℕ
  pub battery_discharge : List ℕ
  pub time_offset : List ℤ

-- The static variables of the module.
pub record InvState (api : PowerApi) : Type 0 where
  pub grid_meas : GridMeas
  pub battery_meas : BatteryMeas
  pub ac_output_meas : AcOutputMeas (api.PowerSet)
  pub pv_meas : PvMeas (api.PowerSet)
  pub energy_meas : EnergyMeas
  pub inv_status : InvStatus
  pub inv_info : InvInfo
  pub ac_out_power_history : api.PowerHistory
  pub pv_power_history : api.PowerHistory
  pub energy_history : EnergyHistory

-- What is sent to the server, and what is asked of the serial client.
pub data InvAction (api : PowerApi) : Type 0 where
  send_ac_out_power_history send_pv_power_history : api.PowerHistory → InvAction api
  send_inv_status : InvStatus → InvAction api
  remove_periodic_qvfw : InvAction api

abbrev pub min_energy_diff : ℕ
min_energy_diff = 250 * 3600
