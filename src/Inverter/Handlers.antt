-- ===== src/Inverter/Handlers.antt =====
-- msg_handlers.c: the handlers of the responses; inverter.c: the table `rsp_handlers` and `inv_init`.
-- The numbers of floating point are those of the protocol's `sscanf`, and what is computed with them
-- is the interface FloatApi.
use es_inverter.Base.{
  ℕ, ◌+◌, ◌*◌, List, [], ◌∷◌, ◌++◌, none, some, Bytes, if◌then◌else◌, ℤ, pos, ◌-ℤ◌, ltb_ℤ, ltb,
  sub_ℕ, to_word, u32,
}
use es_inverter.Inverter.Meas.{
  inv_set_meas_grid, inv_set_meas_battery, inv_set_status, inv_set_warnings, inv_set_fault,
  inv_set_mode, inv_set_model, inv_set_fw_ver,
}
use es_inverter.Inverter.Output.{inv_set_meas_ac_out, inv_set_meas_pv}
use es_inverter.Inverter.State.{
  PowerApi, InvState, InvAction, send_inv_status, remove_periodic_qvfw,
}
use es_inverter.Inverter.Store.{inv_store_energy_meas}
use es_inverter.Rs232.Command.{Command, qid, qvfw, qpigs, qpicf, qpiws, qmod}
use es_inverter.Rs232.Memory.{Outcome, done, fault, ◌>>=◌}
use es_inverter.Rs232.Response.{QpigsResponse}

-- Ten times a number as a `uint16_t`, a number as one, the product of a current and a voltage as an
-- `int16_t`, and a hundred times a quotient as a `uint8_t`.
pub record FloatApi : Type 1 where
  pub Float : Type 0
  pub tenfold : Float → ℕ
  pub as_u16 : Float → ℕ
  pub times_i16 : ℤ → Float → ℤ
  pub percent_u8 : ℤ → ℤ → ℕ

-- The conversion to an `int16_t`.
abbrev pub to_i16 : ℤ → ℤ
to_i16 v = let w = to_word 65536 v in if ltb w 32768 then pos w else sub_ℕ w 65536

-- What `time` returns in each of the functions that a response calls.
pub record Times : Type 0 where
  pub at_battery : ℤ
  pub at_grid : ℤ
  pub at_ac_out : ℤ
  pub at_pv : ℤ
  pub at_store : ℤ

pub data ResponseHandler : Type 0 where
  id_handler fw_ver_handler meas_qpigs_handler fault_handler : ResponseHandler
  warning_flags_handler mode_handler model_handler : ResponseHandler

unfoldable pub rsp_handlers : List (Command × ResponseHandler)
rsp_handlers =
    (qid, id_handler)
    ∷ (qvfw, fw_ver_handler)
    ∷ (qpigs, meas_qpigs_handler)
    ∷ (qpicf, fault_handler)
    ∷ (qpiws, warning_flags_handler)
    ∷ (qmod, mode_handler)
    ∷ (qmod, model_handler)
    ∷ []

module _ (api : PowerApi) (floats : FloatApi) where
  open floats use {Float, tenfold, as_u16, times_i16, percent_u8}

  abbrev Handled : Type 0
  Handled = Outcome (List (InvAction api) × InvState api)

  -- The power of the battery: negative while it is discharged.
  abbrev pub battery_power : QpigsResponse Float → ℤ
  battery_power rsp =
      if ltb_ℤ (pos 0) rsp.battery_discharging_current
      then to_i16 (pos 0 -ℤ times_i16 rsp.battery_discharging_current rsp.battery_voltage)
      else times_i16 rsp.battery_charging_current rsp.battery_voltage

  -- The battery, the grid, the AC output and the panels, in this order.
  unfoldable pub measured_by :
      Times → QpigsResponse Float → InvState api → List (InvAction api) × InvState api
  measured_by t rsp s =
      let power_factor : ℕ = percent_u8 rsp.ac_output_active_power rsp.ac_output_appearent_power in
      let (battery, e1) =
        inv_set_meas_battery t.at_battery (tenfold rsp.battery_voltage) (battery_power rsp)
          (s.battery_meas, s.energy_meas) in
      let (grid, e2) =
        inv_set_meas_grid t.at_grid (tenfold rsp.grid_voltage) (pos 0) (as_u16 rsp.grid_frequency)
          (s.grid_meas, e1) in
      let measured : InvState api = record s {
        battery_meas = battery;
        grid_meas = grid;
        energy_meas = e2;
      } in
      let (ac_sent, with_ac) =
        inv_set_meas_ac_out api t.at_ac_out (tenfold rsp.ac_output_voltage)
          (to_word 65536 rsp.ac_output_active_power) (as_u16 rsp.ac_output_frequency)
          (to_word 256 rsp.output_load_percent) power_factor measured in
      let (pv_sent, with_pv) =
        inv_set_meas_pv api t.at_pv 0 (tenfold rsp.pv_input_voltage)
          (to_word 65536 rsp.pv_input_power) with_ac in
      (ac_sent ++ pv_sent, with_pv)

  unfoldable pub inv_meas_qpigs_handler : Times → QpigsResponse Float → InvState api → Handled
  inv_meas_qpigs_handler t rsp s =
      let m : InvState api = (measured_by t rsp s).1 in
      let flags : ℕ = u32 (rsp.device_status_1 + rsp.device_status_2 * 65536) in
      do
        (energies, history) ← inv_store_energy_meas t.at_store (m.energy_meas, m.energy_history)
        done (
          (measured_by t rsp s).0,
          record m {
            inv_status = inv_set_status flags m.inv_status;
            energy_meas = energies;
            energy_history = history;
          },
        )

  unfoldable pub inv_warning_flags_handler : ℕ → InvState api → Handled
  inv_warning_flags_handler flags s =
      done ([], record s { inv_status = inv_set_warnings flags s.inv_status })

  unfoldable pub inv_fault_handler : ℕ → InvState api → Handled
  inv_fault_handler word s =
      done ([], record s { inv_status = inv_set_fault (u32 word) s.inv_status })

  unfoldable pub inv_mode_handler : ℕ → InvState api → Handled
  inv_mode_handler mode s =
      let (status, sent) = inv_set_mode mode s.inv_status in
      let told : List (InvAction api) = elim sent [ none ↦ [] | some t ↦ send_inv_status t ∷ [] ] in
      done (told, record s { inv_status = status })

  unfoldable pub inv_model_handler : Bytes → ℕ → InvState api → Handled
  inv_model_handler model len s =
      done ([], record s { inv_info = inv_set_model model len s.inv_info })

  unfoldable pub inv_id_handler : ℕ → InvState api → Handled
  inv_id_handler id s = done ([], s)

  unfoldable pub inv_fw_ver_handler : ℕ → InvState api → Handled
  inv_fw_ver_handler fw_ver s =
      done (remove_periodic_qvfw ∷ [], record s { inv_info = inv_set_fw_ver fw_ver s.inv_info })

-- The requests that are sent again and again, with the intervals in ms. A negative answer of
-- `em_sc_send_periodic` fails an assertion.
unfoldable pub periodic : (Command → Bytes → ℕ → ℤ) → List (Command × Bytes × ℕ) → Outcome ℤ
periodic send_periodic [] = done (pos 0)
periodic send_periodic ((cmd, payload, interval) ∷ rest) =
    let later = periodic send_periodic rest in
    if ltb_ℤ (send_periodic cmd payload interval) (pos 0) then fault else later

unfoldable pub inv_init : (Command → Bytes → ℕ → ℤ) → Outcome ℤ
inv_init send_periodic = periodic send_periodic (
    (qvfw, b'Q' ∷ b'V' ∷ b'F' ∷ b'W' ∷ [], 10000)
    ∷ (qpigs, b'Q' ∷ b'P' ∷ b'I' ∷ b'G' ∷ b'S' ∷ [], 15000)
    ∷ (qpiws, b'Q' ∷ b'P' ∷ b'I' ∷ b'W' ∷ b'S' ∷ [], 600000)
    ∷ (qmod, b'Q' ∷ b'M' ∷ b'O' ∷ b'D' ∷ [], 600000)
    ∷ [])
