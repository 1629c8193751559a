-- ===== src/Inverter/Conserved.antt =====
-- inverter.c and msg_handlers.c: the energy of the battery, from the responses into the history.
use es_inverter.Base.{
  ℕ, suc, ◌+◌, ◌*◌, u32, ◌<◌, ◌≤◌, ◌≡◌, refl, ◌∙◌, ap, inl, inr, arith, false, List, [], ◌∷◌,
  length, to_word, div_ℤ, ◌+ℤ◌, ltb_ℤ, take, ℤ, pos, ◌-ℤ◌, ◌*ℤ◌, is_zero, Bool-cases,
}
use es_inverter.Inverter.Energy.{add_battery-balance, energy_over, Readings, IsTimed, measured}
use es_inverter.Inverter.Handlers.{
  FloatApi, Times, battery_power, inv_meas_qpigs_handler, measured_by,
}
use es_inverter.Inverter.History.{IsHistory}
use es_inverter.Inverter.Ledger.{sum, total, same_balance, store-Keeps}
use es_inverter.Inverter.Meas.{
  GridMeas, BatteryMeas, EnergyMeas, inv_set_status, inv_set_meas_battery, plus_word,
  inv_set_meas_grid,
}
use es_inverter.Inverter.Output.{inv_set_meas_ac_out, inv_set_meas_pv}
use es_inverter.Inverter.Polled.{run_qpigs}
use es_inverter.Inverter.State.{PowerApi, InvState, InvAction, EnergyHistory}
use es_inverter.Rs232.Memory.{done}
use es_inverter.Rs232.Response.{QpigsResponse}

-- The same energies of the battery.
abbrev SameBattery : EnergyMeas → EnergyMeas → Type 0
SameBattery e f =
    (e.battery_charge ≡ f.battery_charge) × (e.battery_discharge ≡ f.battery_discharge)

same_total : (e f : EnergyMeas) (h : EnergyHistory) → SameBattery e f → total e h ≡ total f h
same_total e f h (p, q) =
    same_balance _ _ _ _ e f (ap (λ (x : ℕ). sum (take h.size h.battery_charge) + x) p)
      (ap (λ (x : ℕ). sum (take h.size h.battery_discharge) + x) q)

grid-SameBattery :
    (now power : ℤ) (voltage freq : ℕ) (grid : GridMeas) (e : EnergyMeas)
    → SameBattery (inv_set_meas_grid now voltage power freq (grid, e)).1 e
unfolding inv_set_meas_grid
grid-SameBattery now power voltage freq grid e = elim (Bool-cases (is_zero grid.timestamp)) [
  | inl first ↦ rw first (refl, refl)
  | inr later ↦
      elim (Bool-cases
        (ltb_ℤ (div_ℤ (pos grid.power *ℤ (now -ℤ grid.timestamp) +ℤ pos 500) 1000) (pos 0))) [
          | inl negative ↦ rw (later, negative) (refl, refl)
          | inr positive ↦ rw (later, positive) (refl, refl)
        ]
]

module _ (api : PowerApi) (floats : FloatApi) where
  open floats use {Float, tenfold, as_u16, percent_u8}

  ac_out-SameBattery :
      (now : ℤ) (voltage power freq load factor : ℕ) (s : InvState api)
      → SameBattery
          (inv_set_meas_ac_out api now voltage power freq load factor s).1.energy_meas
          s.energy_meas
  unfolding inv_set_meas_ac_out
  ac_out-SameBattery now voltage power freq load factor s =
      elim (Bool-cases (is_zero s.ac_output_meas.timestamp)) [
        | inl first ↦ rw first (refl, refl)
        | inr later ↦ rw later (refl, refl)
      ]

  pv-SameBattery :
      (now : ℤ) (voltage power : ℕ) (s : InvState api)
      → SameBattery (inv_set_meas_pv api now 0 voltage power s).1.energy_meas s.energy_meas
  unfolding inv_set_meas_pv
  pv-SameBattery now voltage power s = elim (Bool-cases (is_zero s.pv_meas.timestamp)) [
    | inl first ↦ rw first (refl, refl)
    | inr later ↦ rw later (refl, refl)
  ]

  -- The states within `measured_by`.
  abbrev by_battery : Times → QpigsResponse Float → InvState api → BatteryMeas × EnergyMeas
  by_battery t rsp s =
      inv_set_meas_battery t.at_battery (tenfold rsp.battery_voltage) (battery_power api floats rsp)
        (s.battery_meas, s.energy_meas)

  abbrev by_grid : Times → QpigsResponse Float → InvState api → GridMeas × EnergyMeas
  by_grid t rsp s =
      inv_set_meas_grid t.at_grid (tenfold rsp.grid_voltage) (pos 0) (as_u16 rsp.grid_frequency)
        (s.grid_meas, (by_battery t rsp s).1)

  abbrev before_ac : Times → QpigsResponse Float → InvState api → InvState api
  before_ac t rsp s = record s {
    battery_meas = (by_battery t rsp s).0;
    grid_meas = (by_grid t rsp s).0;
    energy_meas = (by_grid t rsp s).1;
  }

  abbrev with_ac : Times → QpigsResponse Float → InvState api → InvState api
  with_ac t rsp s =
      (inv_set_meas_ac_out api t.at_ac_out (tenfold rsp.ac_output_voltage)
        (to_word 65536 rsp.ac_output_active_power) (as_u16 rsp.ac_output_frequency)
        (to_word 256 rsp.output_load_percent)
        (percent_u8 rsp.ac_output_active_power rsp.ac_output_appearent_power) (before_ac t rsp s)).1

  -- A response adds the energy of the interval that it ends.
  measured_by-total :
      (t : Times) (rsp : QpigsResponse Float) (s : InvState api)
      → is_zero s.battery_meas.timestamp ≡ false
      → ((measured_by api floats t rsp s).1.battery_meas ≡ record {
        timestamp = t.at_battery;
        voltage = tenfold rsp.battery_voltage;
        charge_power = battery_power api floats rsp;
      })
        × ((measured_by api floats t rsp s).1.energy_history ≡ s.energy_history)
        × (total (measured_by api floats t rsp s).1.energy_meas s.energy_history
            ≡ plus_word
                (total s.energy_meas s.energy_history)
                (s.battery_meas.charge_power *ℤ (t.at_battery -ℤ s.battery_meas.timestamp)))
  unfolding measured_by inv_set_meas_ac_out inv_set_meas_pv inv_set_meas_battery
  measured_by-total t rsp s h =
      let history : EnergyHistory = s.energy_history in
      let m : InvState api = (measured_by api floats t rsp s).1 in
      let ac : InvState api = with_ac t rsp s in
      let delta : ℤ = s.battery_meas.charge_power *ℤ (t.at_battery -ℤ s.battery_meas.timestamp) in
      let e1 : EnergyMeas = (by_battery t rsp s).1 in
      let e2 : EnergyMeas = (by_grid t rsp s).1 in
      let battery =
        measured t.at_battery (battery_power api floats rsp) (tenfold rsp.battery_voltage)
          s.battery_meas s.energy_meas h in
      (
        refl,
        refl,
        same_total m.energy_meas ac.energy_meas history (
              pv-SameBattery t.at_pv (tenfold rsp.pv_input_voltage)
                (to_word 65536 rsp.pv_input_power) ac)
            ∙ same_total ac.energy_meas e2 history (
                ac_out-SameBattery t.at_ac_out (tenfold rsp.ac_output_voltage)
                  (to_word 65536 rsp.ac_output_active_power) (as_u16 rsp.ac_output_frequency)
                  (to_word 256 rsp.output_load_percent)
                  (percent_u8 rsp.ac_output_active_power rsp.ac_output_appearent_power)
                  (before_ac t rsp s))
            ∙ same_total e2 e1 history (
                grid-SameBattery t.at_grid (pos 0) (tenfold rsp.grid_voltage)
                  (as_u16 rsp.grid_frequency) s.grid_meas e1)
            ∙ ap (λ (p : BatteryMeas × EnergyMeas). total p.1 history) battery
            ∙ add_battery-balance _ _ delta s.energy_meas,
      )

  abbrev Responses : Type 0
  Responses = List (Times × QpigsResponse Float)

  -- The times of the responses, and the battery as each has it.
  abbrev pub battery_readings : Responses → Readings
  battery_readings [] = []
  battery_readings ((t, rsp) ∷ rest) =
      (t.at_battery, tenfold rsp.battery_voltage, battery_power api floats rsp)
      ∷ battery_readings rest

  qpigs-total :
      (cap : ℕ) (t : Times) (rsp : QpigsResponse Float) (s : InvState api)
      → IsHistory cap s.energy_history
      → suc s.energy_history.size < cap
      → is_zero s.battery_meas.timestamp ≡ false
      → (sent : List (InvAction api)) × (next : InvState api) × (inv_meas_qpigs_handler api floats t
            rsp s
          ≡ done (sent, next))
        × IsHistory cap next.energy_history
        × (next.energy_history.size ≤ suc s.energy_history.size)
        × (next.battery_meas ≡ record {
          timestamp = t.at_battery;
          voltage = tenfold rsp.battery_voltage;
          charge_power = battery_power api floats rsp;
        })
        × (total next.energy_meas next.energy_history
            ≡ plus_word
                (total s.energy_meas s.energy_history)
                (s.battery_meas.charge_power *ℤ (t.at_battery -ℤ s.battery_meas.timestamp)))
  unfolding inv_meas_qpigs_handler
  qpigs-total cap t rsp s k more h =
      let m : InvState api = (measured_by api floats t rsp s).1 in
      let (battery, history, added) = measured_by-total t rsp s h in
      let (after, longer, p, caps, size, same) =
        store-Keeps cap t.at_store m.energy_meas s.energy_history k more in
      let flags : ℕ = u32 (rsp.device_status_1 + rsp.device_status_2 * 65536) in
      (
        (measured_by api floats t rsp s).0,
        record m {
          inv_status = inv_set_status flags m.inv_status;
          energy_meas = after;
          energy_history = longer;
        },
        rw (history, p) refl,
        caps,
        size,
        battery,
        same ∙ added,
      )

  -- On a history with arrays of one length and with room for more than the responses, at times other
  -- than 0 and from a measurement of the battery on: every run of responses to QPIGS is handled,
  -- and no energy of the battery is lost or counted twice: what the entries of the history and the
  -- energies that are not yet stored hold of it, charged less discharged, is, as a 64-bit word, what
  -- it was and then each power of the battery times the time until the next response.
  pub run_qpigs-energy_over :
      (cap : ℕ) (responses : Responses) (s : InvState api)
      → IsHistory cap s.energy_history
      → s.energy_history.size + length responses < cap
      → is_zero s.battery_meas.timestamp ≡ false
      → IsTimed (battery_readings responses)
      → (after : InvState api) × (run_qpigs api floats responses s ≡ done after)
        × (total after.energy_meas after.energy_history
            ≡ energy_over
                (total s.energy_meas s.energy_history)
                s.battery_meas.charge_power
                s.battery_meas.timestamp
                (battery_readings responses))
  run_qpigs-energy_over cap [] s k room h timed = (s, refl, refl)
  run_qpigs-energy_over cap ((t, rsp) ∷ rest) s k room h timed =
      let (sent, next, p, caps, size, battery, added) = qpigs-total cap t rsp s k (omega arith) h in
      let since : next.battery_meas.timestamp ≡ t.at_battery =
        ap (λ (b : BatteryMeas). b.timestamp) battery in
      let power : next.battery_meas.charge_power ≡ battery_power api floats rsp =
        ap (λ (b : BatteryMeas). b.charge_power) battery in
      let (after, e, kept) =
        run_qpigs-energy_over cap rest next caps (omega arith) (rw since timed.0) timed.1 in
      (after, rw p e, kept ∙ rw (added, since, power) refl)
