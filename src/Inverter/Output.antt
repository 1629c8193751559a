-- ===== src/Inverter/Output.antt =====
-- inverter.c: the power of the AC output and of the panels.
use es_inverter.Base.{
  ℕ, not, List, [], ◌∷◌, if◌then◌else◌, ℤ, pos, ◌-ℤ◌, ◌*ℤ◌, ltb_ℤ, is_zero, leb, u16,
}
use es_inverter.Inverter.Meas.{EnergyMeas, plus_word}
use es_inverter.Inverter.State.{
  PowerApi, InvState, InvAction, send_ac_out_power_history, send_pv_power_history,
}

module _ (api : PowerApi) where
  open api use {
    PowerHistory, PowerSet, last_entry, add_entry, clear_size, set_add, set_avg, set_clear,
  }

  -- The samples are averaged once there are enough of them, and the average goes into the history,
  -- which is sent and cleared when it is full: what is sent, the history, and the samples.
  unfoldable pub averaged :
      (PowerHistory → InvAction api)
      → ℤ
      → ℕ
      → PowerHistory
      → PowerSet
      → List (InvAction api) × PowerHistory × PowerSet
  averaged send now power history samples =
      let (power_ready, added) = set_add samples power in
      let (res, longer) = add_entry history now (u16 (set_avg added)) in
      if not power_ready
      then ([], history, added)
      else if ltb_ℤ res (pos 0)
      then (send longer ∷ [], clear_size longer, set_clear added)
      else ([], longer, set_clear added)

  unfoldable pub inv_set_meas_ac_out :
      ℤ → ℕ → ℕ → ℕ → ℕ → ℕ → InvState api → List (InvAction api) × InvState api
  inv_set_meas_ac_out now voltage power freq load power_factor s =
      let prev_power : ℤ = last_entry s.ac_out_power_history in
      let delta_energy : ℤ = prev_power *ℤ (now -ℤ s.pv_meas.timestamp) in
      let counted : EnergyMeas = record (s.energy_meas) {
        ac_output = plus_word s.energy_meas.ac_output delta_energy;
      } in
      let (sent, history, samples) =
        averaged send_ac_out_power_history now power s.ac_out_power_history
          s.ac_output_meas.power in
      (
        sent,
        record s {
          energy_meas = if is_zero s.ac_output_meas.timestamp then s.energy_meas else counted;
          ac_output_meas = record {
            timestamp = now;
            voltage = voltage;
            power = samples;
            freq = freq;
            output_load = load;
            power_factor = power_factor;
          };
          ac_out_power_history = history;
        },
      )

  -- There is one input, of index 0.
  unfoldable pub inv_set_meas_pv :
      ℤ → ℕ → ℕ → ℕ → InvState api → List (InvAction api) × InvState api
  inv_set_meas_pv now idx voltage power s =
      let prev_power : ℤ = last_entry s.pv_power_history in
      let delta_energy : ℤ = prev_power *ℤ (now -ℤ s.pv_meas.timestamp) in
      let counted : EnergyMeas = record (s.energy_meas) {
        pv = plus_word s.energy_meas.pv delta_energy;
      } in
      let (sent, history, samples) =
        averaged send_pv_power_history now power s.pv_power_history s.pv_meas.power in
      let measured : InvState api = record s {
        energy_meas = if is_zero s.pv_meas.timestamp then s.energy_meas else counted;
        pv_meas = record { timestamp = now; voltage = voltage; power = samples };
        pv_power_history = history;
      } in
      if leb 1 idx then ([], s) else (sent, measured)
