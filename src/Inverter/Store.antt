-- ===== src/Inverter/Store.antt =====
-- inverter.c: `inv_store_energy_meas`, which moves the energies into their history.
use es_inverter.Base.{ℕ, suc, Bool, not, ◌&&◌, set, length, if◌then◌else◌, ◌==◌, ltb, leb, ℤ, ◌-ℤ◌}
use es_inverter.Inverter.Meas.{EnergyMeas}
use es_inverter.Inverter.State.{EnergyHistory, min_energy_diff}
use es_inverter.Rs232.Memory.{Outcome, done, fault}

abbrev pub no_energy : EnergyMeas
no_energy = record {
  grid_consumed = 0;
  grid_provided = 0;
  ac_output = 0;
  pv = 0;
  battery_charge = 0;
  battery_discharge = 0;
}

-- The references of a history that starts.
abbrev pub referenced : ℤ → EnergyMeas → EnergyHistory → EnergyHistory
referenced now e h = record h {
  ref_timestamp = now;
  ref_grid = e.grid_consumed;
  ref_ac_output = e.ac_output;
  ref_pv = e.pv;
  ref_battery_charge = e.battery_charge;
  ref_battery_discharge = e.battery_discharge;
}

abbrev pub too_little : EnergyMeas → Bool
too_little e =
    ltb e.grid_consumed min_energy_diff
    && ltb e.ac_output min_energy_diff
    && ltb e.pv min_energy_diff
    && ltb e.battery_charge min_energy_diff
    && ltb e.battery_discharge min_energy_diff

-- An entry is written at an index of each of the arrays.
abbrev pub writes_inside : EnergyHistory → ℕ → Bool
writes_inside h i =
    ltb i (length h.grid)
    && ltb i (length h.ac_output)
    && ltb i (length h.pv)
    && ltb i (length h.battery_charge)
    && ltb i (length h.battery_discharge)
    && ltb i (length h.time_offset)

abbrev pub with_entry : ℤ → EnergyMeas → EnergyHistory → EnergyHistory
with_entry now e h = record h {
  size = suc h.size;
  grid = set h.grid h.size e.grid_consumed;
  ac_output = set h.ac_output h.size e.ac_output;
  pv = set h.pv h.size e.pv;
  battery_charge = set h.battery_charge h.size e.battery_charge;
  battery_discharge = set h.battery_discharge h.size e.battery_discharge;
  time_offset = set h.time_offset h.size (now -ℤ h.ref_timestamp);
}

-- The entry is stored, the energies are cleared, and a full history too.
unfoldable pub store_entry : ℤ → EnergyMeas → EnergyHistory → Outcome (EnergyMeas × EnergyHistory)
store_entry now e h =
    let longer : EnergyHistory = with_entry now e h in
    if not (writes_inside h h.size)
    then fault
    else if leb (length longer.time_offset) longer.size
    then done (no_energy, record longer { size = 0 })
    else done (no_energy, longer)

unfoldable pub inv_store_energy_meas :
    ℤ → EnergyMeas × EnergyHistory → Outcome (EnergyMeas × EnergyHistory)
inv_store_energy_meas now (e, h) =
    if h.size == 0
    then store_entry now e (referenced now e h)
    else if too_little e
    then done (e, h)
    else store_entry now e h
