-- ===== src/Inverter/Example.antt =====
-- The state of the inverter, its libraries and a response, at concrete values.
use es_inverter.Base.{ℕ, ◌/◌, refl, arith, false, true, [], ◌∷◌, ℤ, pos}
use es_inverter.Inverter.Handlers.{FloatApi, Times}
use es_inverter.Inverter.History.{IsHistory}
use es_inverter.Inverter.State.{PowerApi, EnergyHistory, InvState}
use es_inverter.Rs232.Response.{QpigsResponse}
use es_inverter.Inverter.Meas.{GridMeas, BatteryMeas, EnergyMeas, InvStatus}

abbrev pub energies : EnergyMeas
energies = record {
  grid_consumed = 0;
  grid_provided = 0;
  ac_output = 0;
  pv = 0;
  battery_charge = 100;
  battery_discharge = 40;
}

abbrev pub charging : BatteryMeas
charging = record { timestamp = pos 1000; voltage = 520; charge_power = pos 30 }

abbrev pub standby : InvStatus
standby = record {
  mode = b'S';
  status_flags = 0;
  warning_flags = 0;
  fault_code = 0;
  changed = false;
}

-- From a first measurement of 100 W, 300 W are provided for a while.
abbrev pub grid : GridMeas
grid = record { timestamp = pos 1000; voltage = 2300; power = 100; freq = 500 }

-- Arrays of three entries, of which one is used.
abbrev pub history : EnergyHistory
history = record {
  size = 1;
  ref_timestamp = pos 1000;
  ref_grid = 0;
  ref_ac_output = 0;
  ref_pv = 0;
  ref_battery_charge = 0;
  ref_battery_discharge = 0;
  grid = 7 ∷ 0 ∷ 0 ∷ [];
  ac_output = 7 ∷ 0 ∷ 0 ∷ [];
  pv = 7 ∷ 0 ∷ 0 ∷ [];
  battery_charge = 7 ∷ 0 ∷ 0 ∷ [];
  battery_discharge = 7 ∷ 0 ∷ 0 ∷ [];
  time_offset = pos 0 ∷ pos 0 ∷ pos 0 ∷ [];
}

pub history-IsHistory : IsHistory 3 history
history-IsHistory = record {
  size_room = omega arith;
  grid_cap = refl;
  ac_output_cap = refl;
  pv_cap = refl;
  charge_cap = refl;
  discharge_cap = refl;
  offset_cap = refl;
}

-- A history that keeps the last power, and an average of each sample.
abbrev pub last_power : PowerApi
last_power = record {
  PowerHistory = ℕ;
  PowerSet = ℕ;
  last_entry = λ h. pos h;
  add_entry = λ h now power. (pos 1, power);
  clear_size = λ h. h;
  set_add = λ samples power. (true, power);
  set_avg = λ samples. samples;
  set_clear = λ samples. 0;
}

-- Numbers in tenths.
abbrev pub tenths : FloatApi
tenths = record {
  Float = ℕ;
  tenfold = λ x. x;
  as_u16 = λ x. x / 10;
  times_i16 = λ current x. current;
  percent_u8 = λ active apparent. 100;
}

abbrev pub polled : InvState last_power
polled = record {
  grid_meas = grid;
  battery_meas = charging;
  ac_output_meas = record {
    timestamp = pos 0;
    voltage = 0;
    power = 0;
    freq = 0;
    output_load = 0;
    power_factor = 0;
  };
  pv_meas = record { timestamp = pos 0; voltage = 0; power = 0 };
  energy_meas = energies;
  inv_status = standby;
  inv_info = record { model = []; fw_ver = 0; protocol_ver = 0 };
  ac_out_power_history = 0;
  pv_power_history = 0;
  energy_history = history;
}

abbrev pub response : QpigsResponse ℕ
response = record {
  grid_voltage = 2300;
  grid_frequency = 500;
  ac_output_voltage = 2300;
  ac_output_frequency = 500;
  ac_output_active_power = pos 400;
  ac_output_appearent_power = pos 400;
  output_load_percent = pos 10;
  bus_voltage = pos 400;
  battery_voltage = 520;
  battery_charging_current = pos 5;
  battery_discharging_current = pos 0;
  battery_voltage_from_scc = 520;
  battery_capacity = pos 90;
  temperature = pos 40;
  pv_input_current = 20;
  pv_input_voltage = 3000;
  pv_input_power = pos 600;
  device_status_1 = 5;
  battery_offset = 0;
  eeprom_version = 0;
  device_status_2 = 1;
}

abbrev pub at_once : ℤ → Times
at_once now = record {
  at_battery = now;
  at_grid = now;
  at_ac_out = now;
  at_pv = now;
  at_store = now;
}

abbrev pub fresh : InvState last_power
fresh = record polled { energy_history = record history { size = 0 } }

pub fresh-IsHistory : IsHistory 3 fresh.energy_history
fresh-IsHistory = ground (arith, history-IsHistory)
