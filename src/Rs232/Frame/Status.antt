-- ===== src/Rs232/Frame/Status.antt =====
-- The statuses that the parsers return, and the error code that the caller sees.
use es_inverter.Base.{
  ℕ, zero, suc, ◌<◌, ◌≡◌, inl, inr, Bool, true, false, Option, some, List, [], ◌∷◌, arith, Bytes, ℤ,
  pos, negsuc, Bool-cases, Option-cases, ◌==◌, sub_ℕ, ◌+ℤ◌, ◌*ℤ◌,
}
use es_inverter.Rs232.Command.{
  Command, qpi, qid, qvfw, qvfw2, qvfw3, qpiri, qmd, qflag, qpigs, qmod, qgov, qgof, qopmp, qmpptv,
  qpvipv, qlst, qtpr, qdi2, qgltv, qdm, qpihf, qchgs, qpicf, qpiws,
}
use es_inverter.Rs232.Packet.{Output, into, parse_packet}
use es_inverter.Rs232.Memory.{done, fault, Outcome-cases, int_result}
use es_inverter.Rs232.Parsers.{
  Parsed, parse_rsp_qpi, parse_rsp_qid, parse_rsp_qvfw, parse_rsp_qmd, set_flag, flag_loop,
  parse_rsp_qflag, parse_rsp_qmod,
}
use es_inverter.Rs232.Response.{QidResponse, QflagResponse, QpigsResponse}
use es_inverter.Rs232.Scanf.{Scanf, Slot}
use es_inverter.Rs232.Scanned.{
  scan_all, parse_rsp_qpigs, qpiri_slots, hilo_slots, qgof_slots, qtpr_slots, qdi2_slots,
  qchgs_slots, qdm_slots, parse_rsp_qpiri, parse_rsp_qgov, parse_rsp_qgof, parse_rsp_qmpptv,
  parse_rsp_qpvipv, parse_rsp_qtpr, parse_rsp_qdi2, parse_rsp_qgltv, parse_rsp_qdm, parse_rsp_qchgs,
}
use es_inverter.Rs232.Words.{
  warning_loop, fault_loop, dec_loop, parse_rsp_qpiws, parse_rsp_qpicf, parse_rsp_qopmp, strdec2int,
  parse_rsp_qlst, parse_rsp_qpihf,
}

-- A parser's status is 0, or one of -1 to -4.
abbrev pub IsStatus : ℤ → Type 0
IsStatus (pos zero) = Unit
IsStatus (pos (suc n)) = ⊥
IsStatus (negsuc k) = k < 4

abbrev HasStatus : {R : Type 0} → Parsed R → Type 0
HasStatus (done (status, r)) = IsStatus status
HasStatus fault = Unit

qpi-HasStatus : (mem : Bytes) (len id : ℕ) → HasStatus (parse_rsp_qpi mem len id)
unfolding parse_rsp_qpi
qpi-HasStatus mem len id = ground arith

qid-HasStatus : (mem : Bytes) (len : ℕ) (r : QidResponse) → HasStatus (parse_rsp_qid mem len r)
unfolding parse_rsp_qid
qid-HasStatus mem len r = ground arith

qvfw-HasStatus : (mem : Bytes) (len v : ℕ) → HasStatus (parse_rsp_qvfw mem len v)
unfolding parse_rsp_qvfw
qvfw-HasStatus mem len v = ground arith

qmd-HasStatus : (mem : Bytes) (len : ℕ) (m : Bytes) → HasStatus (parse_rsp_qmd mem len m)
unfolding parse_rsp_qmd
qmd-HasStatus mem len m = ground arith

flag_loop-HasStatus :
    (n : ℕ) (mem : Bytes) (enable : Bool) (r : QflagResponse) → HasStatus (flag_loop n mem enable r)
unfolding flag_loop
flag_loop-HasStatus zero mem enable r = ground arith
flag_loop-HasStatus (suc n) [] enable r = tt
flag_loop-HasStatus (suc n) (c ∷ mem) enable r = elim (Bool-cases (c == b'E')) [
  | inl on ↦ rw on (flag_loop-HasStatus n mem true r)
  | inr not_on ↦ rw not_on (elim (Bool-cases (c == b'D')) [
    | inl off ↦ rw off (flag_loop-HasStatus n mem false r)
    | inr letter ↦ rw letter (elim (Option-cases (set_flag c enable r)) [
      | inl unknown ↦ rw unknown (omega arith)
      | inr (r', known) ↦ rw known (flag_loop-HasStatus n mem enable r')
    ])
  ])
]

qflag-HasStatus :
    (mem : Bytes) (len : ℕ) (r : QflagResponse) → HasStatus (parse_rsp_qflag mem len r)
unfolding parse_rsp_qflag
qflag-HasStatus mem len r = ground (arith, flag_loop-HasStatus len mem false r)

warning_loop-HasStatus : (n : ℕ) (mem : Bytes) (w : ℕ) → HasStatus (warning_loop n mem w)
unfolding warning_loop
warning_loop-HasStatus zero mem w = tt
warning_loop-HasStatus (suc n) [] w = tt
warning_loop-HasStatus (suc n) (b ∷ mem) w = warning_loop-HasStatus n mem _

fault_loop-HasStatus : (n : ℕ) (mem : Bytes) (w : ℕ) → HasStatus (fault_loop n mem w)
unfolding fault_loop
fault_loop-HasStatus zero mem w = tt
fault_loop-HasStatus (suc n) [] w = tt
fault_loop-HasStatus (suc n) (b ∷ mem) w = fault_loop-HasStatus n mem _

dec_loop-HasStatus : (n : ℕ) (mem : Bytes) (v : ℤ) → HasStatus (dec_loop n mem v)
unfolding dec_loop
dec_loop-HasStatus zero mem v = tt
dec_loop-HasStatus (suc n) [] v = tt
dec_loop-HasStatus (suc n) (b ∷ mem) v = elim (Outcome-cases (int_result (v *ℤ pos 10))) [
  | inl f ↦ ground arith
  | inr (scaled, e) ↦ elim (Outcome-cases (int_result (scaled +ℤ sub_ℕ b b'0'))) [
    | inl f ↦ ground arith
    | inr (sum, e') ↦ ground (arith, dec_loop-HasStatus n mem sum)
  ]
]

qlst-HasStatus : (mem : Bytes) (len v : ℕ) → HasStatus (parse_rsp_qlst mem len v)
unfolding parse_rsp_qlst
qlst-HasStatus mem len v = ground arith

scan_all-HasStatus :
    (libc : Scanf) {R : Type 0} (mem : Bytes) (slots : List (Slot libc.Float R)) (n : ℕ) (r : R)
    → HasStatus (scan_all libc mem slots n r)
unfolding scan_all
scan_all-HasStatus libc mem slots n r = ground arith

into-HasStatus :
    (libc : Scanf) {R : Type 0} (put : R → Output libc.Float) (p : Parsed R) {status : ℤ}
    {o : Output libc.Float}
    → HasStatus p
    → into put p ≡ done (some (status, o))
    → IsStatus status
into-HasStatus libc put (done (s, r)) h e = ground arith
into-HasStatus libc put fault h e = absurd (cc)

module _ (libc : Scanf) where
  open libc use {Float}

  qpigs-HasStatus :
      (mem : Bytes) (len : ℕ) (r : QpigsResponse Float) → HasStatus (parse_rsp_qpigs libc mem len r)
  unfolding parse_rsp_qpigs
  qpigs-HasStatus mem len r = ground arith

  pub parse_packet-IsStatus :
      (c : Option Command) (mem : Bytes) (len : ℕ) (o : Output Float) {status : ℤ}
      {o' : Output Float}
      → parse_packet libc c mem len o ≡ done (some (status, o'))
      → IsStatus status
  unfolding parse_packet parse_rsp_qpiri parse_rsp_qgov parse_rsp_qgof parse_rsp_qmpptv
      parse_rsp_qpvipv parse_rsp_qtpr parse_rsp_qdi2 parse_rsp_qgltv parse_rsp_qdm parse_rsp_qchgs
      parse_rsp_qmod parse_rsp_qopmp strdec2int parse_rsp_qpicf parse_rsp_qpihf parse_rsp_qpiws
  parse_packet-IsStatus (some qpi) mem len o =
      into-HasStatus libc _ _ (qpi-HasStatus mem len o.number)
  parse_packet-IsStatus (some qid) mem len o =
      into-HasStatus libc _ _ (qid-HasStatus mem len o.qid_response)
  parse_packet-IsStatus (some qvfw) mem len o =
      into-HasStatus libc _ _ (qvfw-HasStatus mem len o.number)
  parse_packet-IsStatus (some qvfw2) mem len o =
      into-HasStatus libc _ _ (qvfw-HasStatus mem len o.number)
  parse_packet-IsStatus (some qvfw3) mem len o =
      into-HasStatus libc _ _ (qvfw-HasStatus mem len o.number)
  parse_packet-IsStatus (some qpiri) mem len o =
      into-HasStatus libc _ _
        (ground (arith, scan_all-HasStatus libc mem qpiri_slots 10 o.qpiri_response))
  parse_packet-IsStatus (some qmd) mem len o =
      into-HasStatus libc _ _ (qmd-HasStatus mem len o.model)
  parse_packet-IsStatus (some qflag) mem len o =
      into-HasStatus libc _ _ (qflag-HasStatus mem len o.qflag_response)
  parse_packet-IsStatus (some qpigs) mem len o =
      into-HasStatus libc _ _ (qpigs-HasStatus mem len o.qpigs_response)
  parse_packet-IsStatus (some qmod) mem len o = into-HasStatus libc _ _ (ground (arith))
  parse_packet-IsStatus (some qgov) mem len o =
      into-HasStatus libc _ _
        (ground (arith, scan_all-HasStatus libc mem hilo_slots 2 o.hilo_voltage_response))
  parse_packet-IsStatus (some qgof) mem len o =
      into-HasStatus libc _ _
        (ground (arith, scan_all-HasStatus libc mem qgof_slots 2 o.qgof_response))
  parse_packet-IsStatus (some qopmp) mem len o =
      into-HasStatus libc _ _ (ground (arith, dec_loop-HasStatus len mem (pos 0)))
  parse_packet-IsStatus (some qmpptv) mem len o =
      into-HasStatus libc _ _
        (ground (arith, scan_all-HasStatus libc mem hilo_slots 2 o.hilo_voltage_response))
  parse_packet-IsStatus (some qpvipv) mem len o =
      into-HasStatus libc _ _
        (ground (arith, scan_all-HasStatus libc mem hilo_slots 2 o.hilo_voltage_response))
  parse_packet-IsStatus (some qlst) mem len o =
      into-HasStatus libc _ _ (qlst-HasStatus mem len o.number)
  parse_packet-IsStatus (some qtpr) mem len o =
      into-HasStatus libc _ _
        (ground (arith, scan_all-HasStatus libc mem qtpr_slots 3 o.qtpr_response))
  parse_packet-IsStatus (some qdi2) mem len o =
      into-HasStatus libc _ _
        (ground (arith, scan_all-HasStatus libc mem qdi2_slots 3 o.qdi2_response))
  parse_packet-IsStatus (some qgltv) mem len o =
      into-HasStatus libc _ _
        (ground (arith, scan_all-HasStatus libc mem hilo_slots 2 o.hilo_voltage_response))
  parse_packet-IsStatus (some qdm) mem len o =
      into-HasStatus libc _ _ (ground (arith, scan_all-HasStatus libc mem qdm_slots 1 o.number))
  parse_packet-IsStatus (some qpihf) mem len o = into-HasStatus libc _ _ (ground (arith))
  parse_packet-IsStatus (some qchgs) mem len o =
      into-HasStatus libc _ _
        (ground (arith, scan_all-HasStatus libc mem qchgs_slots 4 o.qchgs_response))
  parse_packet-IsStatus (some qpicf) mem len o =
      into-HasStatus libc _ _ (ground (arith, fault_loop-HasStatus len mem 0))
  parse_packet-IsStatus (some qpiws) mem len o =
      into-HasStatus libc _ _ (warning_loop-HasStatus _ mem 0)
  parse_packet-IsStatus _ mem len o = λ e. absurd (cc)
