-- ===== src/Inverter/Polled.antt =====
-- msg_handlers.c: a run of responses to QPIGS.
use es_inverter.Base.{ℕ, ◌≡◌, refl, List, [], ◌∷◌, ◌+◌, ◌*◌, u32}
use es_inverter.Inverter.Handlers.{FloatApi, Times, inv_meas_qpigs_handler, measured_by}
use es_inverter.Inverter.History.{IsHistory, inv_store_energy_meas_lem}
use es_inverter.Inverter.Meas.{inv_set_status}
use es_inverter.Inverter.Output.{inv_set_meas_ac_out, inv_set_meas_pv}
use es_inverter.Inverter.State.{PowerApi, InvState, InvAction}
use es_inverter.Rs232.Memory.{Outcome, done, ◌>>=◌}
use es_inverter.Rs232.Response.{QpigsResponse}

module _ (api : PowerApi) (floats : FloatApi) where
  open floats use {Float}

  abbrev pub run_qpigs : List (Times × QpigsResponse Float) → InvState api → Outcome (InvState api)
  run_qpigs [] s = done s
  run_qpigs ((t, rsp) ∷ rest) s = do
    (sent, next) ← inv_meas_qpigs_handler api floats t rsp s
    run_qpigs rest next

  qpigs-IsHistory :
      (cap : ℕ) (t : Times) (rsp : QpigsResponse Float) (s : InvState api)
      → IsHistory cap s.energy_history
      → (sent : List (InvAction api)) × (next : InvState api) × (inv_meas_qpigs_handler api floats t
            rsp s
          ≡ done (sent, next))
        × IsHistory cap next.energy_history
  unfolding inv_meas_qpigs_handler measured_by inv_set_meas_ac_out inv_set_meas_pv
  qpigs-IsHistory cap t rsp s k =
      let m : InvState api = (measured_by api floats t rsp s).1 in
      let (after, longer, p, q, r) =
        inv_store_energy_meas_lem cap t.at_store m.energy_meas m.energy_history k in
      let flags : ℕ = u32 (rsp.device_status_1 + rsp.device_status_2 * 65536) in
      (
        (measured_by api floats t rsp s).0,
        record m {
          inv_status = inv_set_status flags m.inv_status;
          energy_meas = after;
          energy_history = longer;
        },
        rw p refl,
        q,
      )

  -- On a history with arrays of one length and room for an entry: every run of responses to QPIGS
  -- is handled, at whatever times and with whatever values, without an access out of bounds, and
  -- the history keeps its lengths and its room.
  pub run_qpigs-IsHistory :
      (cap : ℕ) (responses : List (Times × QpigsResponse Float)) (s : InvState api)
      → IsHistory cap s.energy_history
      → (after : InvState api) × (run_qpigs responses s ≡ done after)
        × IsHistory cap after.energy_history
  run_qpigs-IsHistory cap [] s k = (s, refl, k)
  run_qpigs-IsHistory cap ((t, rsp) ∷ rest) s k =
      let (sent, next, p, q) = qpigs-IsHistory cap t rsp s k in
      let (after, e, kept) = run_qpigs-IsHistory cap rest next q in (after, rw p e, kept)
