-- ===== src/Inverter/Tests.antt =====
-- The inverter's measurements at concrete values.
use es_inverter.Base.{ℕ, ◌≡◌, ◌≢◌, ◌⊎◌, refl, inr, arith, true, [], ◌∷◌, List, pos, negsuc}
use es_inverter.Inverter.Handlers.{Times, inv_mode_handler}
use es_inverter.Inverter.History.{IsHistory, IsLittle, IsStored, inv_store_energy_meas_lem}
use es_inverter.Inverter.Polled.{run_qpigs, run_qpigs-IsHistory}
use es_inverter.Inverter.State.{EnergyHistory, InvState, InvAction}
use es_inverter.Inverter.Store.{inv_store_energy_meas}
use es_inverter.Rs232.Memory.{done}
use es_inverter.Rs232.Response.{QpigsResponse}
use es_inverter.Inverter.Conserved.{battery_readings, run_qpigs-energy_over}
use es_inverter.Inverter.Ledger.{total}
use es_inverter.Inverter.Mode.{Tells, rs232_2400_rsp_parse-inv_mode_handler}
use es_inverter.Rs232.Command.{code}
use es_inverter.Rs232.Crc.{crc16_xmodem, crc_loop, crc_round, crc16tab}
use es_inverter.Rs232.Example.{libc, output, counters}
use es_inverter.Rs232.Frame.{Parse, rs232_2400_rsp_parse, rs232_2400_serialize}
use es_inverter.Inverter.Energy.{
  Readings, run_battery, energy_over, balance, run_battery-energy_over,
}
use es_inverter.Inverter.Grid.{GridReadings, run_grid, run_grid-grid_provided}
use es_inverter.Inverter.Meas.{EnergyMeas}
use es_inverter.Inverter.Status.{
  StatusResponse, status_flags_read, mode_read, run_status, IsSynced, run_status-IsSynced,
}
use es_inverter.Inverter.Example.{
  at_once, charging, energies, fresh, fresh-IsHistory, grid, history, history-IsHistory, last_power,
  polled, response, standby, tenths,
}

abbrev readings : Readings
readings = (pos 1010, 520, negsuc 9) ∷ (pos 1015, 519, pos 0) ∷ []

run_battery-energy_over_example :
    balance 7 5 (run_battery readings (charging, energies)).1
    ≡ energy_over 62 (pos 30) (pos 1000) readings
run_battery-energy_over_example =
    run_battery-energy_over 7 5 readings charging energies refl (ground arith)

-- 30 W for 10 s, and then -10 W for 5 s.
balance_after : energy_over 60 (pos 30) (pos 1000) readings ≡ 310
balance_after = refl

abbrev responses : List StatusResponse
responses = status_flags_read 5 ∷ mode_read b'B' ∷ status_flags_read 4 ∷ []

run_status-IsSynced_example :
    IsSynced (run_status responses standby standby).0 (run_status responses standby standby).1
run_status-IsSynced_example =
    run_status-IsSynced responses standby standby (inr (refl, refl, refl, refl))

abbrev grid_readings : GridReadings
grid_readings = (pos 1010, 2300, negsuc 299, 500) ∷ (pos 1020, 2310, negsuc 299, 500) ∷ []

run_grid-grid_provided_example : (run_grid grid_readings (grid, energies)).1.grid_provided ≡ 0
run_grid-grid_provided_example =
    run_grid-grid_provided grid_readings grid energies (refl, (refl, tt))

abbrev sunny : EnergyMeas
sunny = record energies { pv = 1000000 }

inv_store_energy_meas_lem_example :
    (after : EnergyMeas) × (longer : EnergyHistory) × (inv_store_energy_meas
        (pos 4600)
        (sunny, history)
      ≡ done (after, longer))
    × IsHistory 3 longer
    × (((history.size ≢ 0) × IsLittle sunny × (after ≡ sunny) × (longer ≡ history))
        ⊎ (((history.size ≡ 0) ⊎ (¬ IsLittle sunny)) × IsStored 3 sunny history after longer))
inv_store_energy_meas_lem_example =
    inv_store_energy_meas_lem 3 (pos 4600) sunny history history-IsHistory

run_qpigs-IsHistory_example :
    (after : InvState last_power) × (run_qpigs last_power tenths
        ((at_once (pos 2000), response) ∷ (at_once (pos 2015), response) ∷ [])
        polled
      ≡ done after)
    × IsHistory 3 after.energy_history
run_qpigs-IsHistory_example =
    run_qpigs-IsHistory last_power tenths 3
      ((at_once (pos 2000), response) ∷ (at_once (pos 2015), response) ∷ []) polled
      history-IsHistory

abbrev two_responses : List (Times × QpigsResponse ℕ)
two_responses = (at_once (pos 2000), response) ∷ (at_once (pos 2015), response) ∷ []

run_qpigs-energy_over_example :
    (after : InvState last_power) × (run_qpigs last_power tenths two_responses fresh ≡ done after)
    × (total after.energy_meas after.energy_history
        ≡ energy_over 60 (pos 30) (pos 1000) (battery_readings last_power tenths two_responses))
run_qpigs-energy_over_example =
    run_qpigs-energy_over last_power tenths 3 two_responses fresh fresh-IsHistory (omega arith) refl
      (ground arith)

-- Mode 'B' behind a line feed, while the status has 'S'.
rs232_2400_rsp_parse-inv_mode_handler_example :
    (p : Parse ℕ) × (told : List (InvAction last_power)) × (next : InvState last_power)
    × (rs232_2400_rsp_parse libc 10 (10 ∷ b'(' ∷ b'B' ∷ 231 ∷ 201 ∷ b'\r' ∷ []) output counters
        ≡ done p)
    × (p.consumed ≡ 6)
    × (inv_mode_handler last_power tenths p.output.number fresh ≡ done (told, next))
    × Tells last_power tenths b'B' fresh told next
unfolding code rs232_2400_serialize crc16_xmodem crc_loop crc_round crc16tab
rs232_2400_rsp_parse-inv_mode_handler_example =
    rs232_2400_rsp_parse-inv_mode_handler libc last_power tenths (λ size. true) b'B' (10 ∷ []) []
      output counters fresh {wire = b'(' ∷ b'B' ∷ 231 ∷ 201 ∷ b'\r' ∷ []} refl (omega arith)
      (record { no_cr = ground arith; no_open = ground arith })
