-- ===== src/Inverter/Status.antt =====
-- msg_handlers.c: the handlers of the status of the inverter, and when the server is told of it.
use es_inverter.Base.{
  ℕ, ◌≡◌, ◌⊎◌, inl, inr, arith, true, List, [], ◌∷◌, Option, none, some, Bool-cases, ◌==◌, u32,
}
use es_inverter.Inverter.Meas.{
  InvStatus, inv_set_status, inv_set_warnings, inv_set_fault, inv_set_mode,
}

-- The responses that change the status: the flags of QPIGS, QPIWS, QPICF and QMOD.
pub data StatusResponse : Type 0 where
  status_flags_read warning_flags_read fault_read mode_read : ℕ → StatusResponse

-- `inv_warning_flags_handler`, `inv_fault_handler`, `inv_mode_handler`, and the status of
-- `inv_meas_qpigs_handler`: the status, and what is sent.
unfoldable pub handle_status : StatusResponse → InvStatus → InvStatus × Option InvStatus
handle_status (status_flags_read flags) s = (inv_set_status (u32 flags) s, none)
handle_status (warning_flags_read word) s = (inv_set_warnings word s, none)
handle_status (fault_read word) s = (inv_set_fault (u32 word) s, none)
handle_status (mode_read word) s = inv_set_mode (u32 word) s

-- The status after a run of responses, and the last one sent.
abbrev pub run_status : List StatusResponse → InvStatus → InvStatus → InvStatus × InvStatus
run_status [] s last = (s, last)
run_status (response ∷ rest) s last =
    let (next, sent) = handle_status response s in
    run_status rest next (elim sent [ none ↦ last | some t ↦ t ])

-- The status is marked as changed, or it is what was sent last.
abbrev pub IsSynced : InvStatus → InvStatus → Type 0
IsSynced s last =
    (s.changed ≡ true)
    ⊎ ((s.mode ≡ last.mode)
        × (s.status_flags ≡ last.status_flags)
        × (s.warning_flags ≡ last.warning_flags)
        × (s.fault_code ≡ last.fault_code))

handle_status-IsSynced :
    (response : StatusResponse) (s last : InvStatus)
    → IsSynced s last
    → IsSynced
        (handle_status response s).0
        (elim (handle_status response s).1 [ none ↦ last | some t ↦ t ])
unfolding handle_status inv_set_status inv_set_warnings inv_set_fault inv_set_mode
handle_status-IsSynced (status_flags_read flags) s last h = ground arith
handle_status-IsSynced (warning_flags_read word) s last h = ground arith
handle_status-IsSynced (fault_read word) s last h = ground arith
handle_status-IsSynced (mode_read word) s last h = elim (Bool-cases (s.mode == u32 word)) [
  | inl same ↦ elim (Bool-cases s.changed) [
    | inl marked ↦ ground arith
    | inr unmarked ↦ ground arith
  ]
  | inr other ↦ ground arith
]

-- After any run of responses, starting from a status that was sent, the status is marked as changed
-- or it is the one that was sent last: no change is forgotten before the next mode is read.
pub run_status-IsSynced :
    (responses : List StatusResponse) (s last : InvStatus)
    → IsSynced s last
    → IsSynced (run_status responses s last).0 (run_status responses s last).1
run_status-IsSynced [] s last h = h
run_status-IsSynced (response ∷ rest) s last h =
    run_status-IsSynced rest _ _ (handle_status-IsSynced response s last h)
