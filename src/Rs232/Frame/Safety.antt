-- ===== src/Rs232/Frame/Safety.antt =====
-- No access out of bounds: which requests' packets are read within the buffer whatever they hold.
use es_inverter.Base.{
  ℕ, suc, ◌+◌, ◌-◌, ◌≤◌, ◌<◌, ◌≡◌, ◌≢◌, refl, ◌∙◌, Option, some, arith, Bytes, length, drop, set,
  length-drop,
}
use es_inverter.Rs232.Memory.{Outcome, done, fault}
use es_inverter.Rs232.Memory.Total.{
  get_elem?-lt, get_elem?-ne-none, get_elem?-set_self, get_elem?-set_next, get_elem?-drop,
  c_string-ne-fault,
}
use es_inverter.Rs232.Parsers.{Parsed, parse_rsp_qmod}
use es_inverter.Rs232.Scanf.{Scanf, scan}
use es_inverter.Rs232.Command.{
  Command, of_code, qpi, qid, qvfw, qvfw2, qvfw3, qpiri, qmd, qflag, qpigs, qmod, qgov, qgof, qopmp,
  qmpptv, qpvipv, qlst, qtpr, qdi2, qgltv, qdm, qpihf, qchgs, qpicf, qpiws,
}
use es_inverter.Rs232.Frame.{
  Counters, Parse, read_packet, check_packet, no_start, last_start, first_end, rs232_2400_rsp_parse,
}
use es_inverter.Rs232.Packet.{Output, into, parse_packet}
use es_inverter.Rs232.Frame.Search.{first_end_bounds, last_start_bounds}
use es_inverter.Rs232.Scanned.{
  parse_rsp_qpigs, qpiri_slots, hilo_slots, qgof_slots, qtpr_slots, qdi2_slots, qchgs_slots,
  qdm_slots, parse_rsp_qpiri, parse_rsp_qgov, parse_rsp_qgof, parse_rsp_qmpptv, parse_rsp_qpvipv,
  parse_rsp_qtpr, parse_rsp_qdi2, parse_rsp_qgltv, parse_rsp_qdm, parse_rsp_qchgs,
}
use es_inverter.Rs232.Words.{parse_rsp_qpiws, parse_rsp_qpicf}
use es_inverter.Rs232.Frame.Bounded.{
  EndsAt, nak-ne-fault, qid-ne-fault, qmd-ne-fault, qflag-ne-fault, warning_loop-ne-fault,
  fault_loop-ne-fault, qvfw-ne-fault, scan_all-ne-fault,
}

into-ne-fault :
    {Float R : Type 0} (put : R → Output Float) (p : Parsed R) → p ≢ fault → into put p ≢ fault
into-ne-fault put (done (s, r)) h = λ e. cc
into-ne-fault put fault h = absurd (h refl)

-- A request whose packets are read within bounds, or that no parser is for. QPI reads an array of
-- two bytes as a string, QLST writes to an array of three bytes, QPIHF one byte behind its array,
-- and QOPMP sums up in an `int`.
abbrev pub IsBounded : Option Command → Type 0
IsBounded (some qpi) = ⊥
IsBounded (some qopmp) = ⊥
IsBounded (some qlst) = ⊥
IsBounded (some qpihf) = ⊥
IsBounded _ = Unit

module _ (libc : Scanf) where
  open libc use {Float}

  parse_packet-ne-fault :
      (c : Option Command) (mem : Bytes) (len : ℕ) (o : Output Float)
      → EndsAt mem len
      → 16 ≤ length o.model
      → IsBounded c
      → parse_packet libc c mem len o ≢ fault
  unfolding parse_packet parse_rsp_qpiri parse_rsp_qgov parse_rsp_qgof parse_rsp_qmpptv
      parse_rsp_qpvipv parse_rsp_qtpr parse_rsp_qdi2 parse_rsp_qgltv parse_rsp_qdm parse_rsp_qchgs
      parse_rsp_qmod parse_rsp_qpicf parse_rsp_qpiws parse_rsp_qpigs scan
  parse_packet-ne-fault (some qpi) mem len o nul room b = absurd b
  parse_packet-ne-fault (some qid) mem len o nul room b =
      into-ne-fault _ _ (qid-ne-fault mem len o.qid_response nul)
  parse_packet-ne-fault (some qvfw) mem len o nul room b =
      into-ne-fault _ _ (qvfw-ne-fault mem len o.number nul)
  parse_packet-ne-fault (some qvfw2) mem len o nul room b =
      into-ne-fault _ _ (qvfw-ne-fault mem len o.number nul)
  parse_packet-ne-fault (some qvfw3) mem len o nul room b =
      into-ne-fault _ _ (qvfw-ne-fault mem len o.number nul)
  parse_packet-ne-fault (some qpiri) mem len o nul room b =
      into-ne-fault _ _
        (ground (arith, scan_all-ne-fault libc mem len qpiri_slots 10 o.qpiri_response nul))
  parse_packet-ne-fault (some qmd) mem len o nul room b =
      into-ne-fault _ _ (qmd-ne-fault mem len o.model nul room)
  parse_packet-ne-fault (some qflag) mem len o nul room b =
      into-ne-fault _ _ (qflag-ne-fault mem len o.qflag_response nul)
  parse_packet-ne-fault (some qpigs) mem len o nul room b =
      into-ne-fault _ _ (ground (arith, c_string-ne-fault mem len nul))
  parse_packet-ne-fault (some qmod) mem len o nul room b =
      into-ne-fault _ _ (ground (arith, get_elem?-lt mem len nul, get_elem?-ne-none mem 0))
  parse_packet-ne-fault (some qgov) mem len o nul room b =
      into-ne-fault _ _
        (ground (arith, scan_all-ne-fault libc mem len hilo_slots 2 o.hilo_voltage_response nul))
  parse_packet-ne-fault (some qgof) mem len o nul room b =
      into-ne-fault _ _
        (ground (arith, scan_all-ne-fault libc mem len qgof_slots 2 o.qgof_response nul))
  parse_packet-ne-fault (some qopmp) mem len o nul room b = absurd b
  parse_packet-ne-fault (some qmpptv) mem len o nul room b =
      into-ne-fault _ _
        (ground (arith, scan_all-ne-fault libc mem len hilo_slots 2 o.hilo_voltage_response nul))
  parse_packet-ne-fault (some qpvipv) mem len o nul room b =
      into-ne-fault _ _
        (ground (arith, scan_all-ne-fault libc mem len hilo_slots 2 o.hilo_voltage_response nul))
  parse_packet-ne-fault (some qlst) mem len o nul room b = absurd b
  parse_packet-ne-fault (some qtpr) mem len o nul room b =
      into-ne-fault _ _
        (ground (arith, scan_all-ne-fault libc mem len qtpr_slots 3 o.qtpr_response nul))
  parse_packet-ne-fault (some qdi2) mem len o nul room b =
      into-ne-fault _ _
        (ground (arith, scan_all-ne-fault libc mem len qdi2_slots 3 o.qdi2_response nul))
  parse_packet-ne-fault (some qgltv) mem len o nul room b =
      into-ne-fault _ _
        (ground (arith, scan_all-ne-fault libc mem len hilo_slots 2 o.hilo_voltage_response nul))
  parse_packet-ne-fault (some qdm) mem len o nul room b =
      into-ne-fault _ _ (ground (arith, scan_all-ne-fault libc mem len qdm_slots 1 o.number nul))
  parse_packet-ne-fault (some qpihf) mem len o nul room b = absurd b
  parse_packet-ne-fault (some qchgs) mem len o nul room b =
      into-ne-fault _ _
        (ground (arith, scan_all-ne-fault libc mem len qchgs_slots 4 o.qchgs_response nul))
  parse_packet-ne-fault (some qpicf) mem len o nul room b =
      into-ne-fault _ _ (ground (arith, get_elem?-lt mem len nul, fault_loop-ne-fault len mem 0))
  parse_packet-ne-fault (some qpiws) mem len o nul room b =
      into-ne-fault _ _
        (let lt = get_elem?-lt mem len nul in warning_loop-ne-fault _ mem 0 (ground arith))
  parse_packet-ne-fault _ mem len o nul room b = λ e. cc

  read_packet-ne-fault :
      (rq_id start stop : ℕ) (buffer : Bytes) (o : Output Float) (c : Counters)
      → EndsAt (drop (start + 1) buffer) (stop - start - 3)
      → 16 ≤ length o.model
      → stop - start - 3 ≤ length o.rejected
      → IsBounded (of_code rq_id)
      → read_packet libc rq_id start stop buffer o c ≢ fault
  unfolding read_packet
  read_packet-ne-fault rq_id start stop buffer o c nul room copy b =
      let packet : Bytes = drop (start + 1) buffer in
      let len : ℕ = stop - start - 3 in
      ground (
        arith,
        nak-ne-fault packet len nul,
        get_elem?-lt packet len nul,
        parse_packet-ne-fault (of_code rq_id) packet len o nul room b,
      )

  -- The two bytes of the CRC are zero before a packet is read.
  zeroed-EndsAt :
      (start stop : ℕ) (data_in : Bytes)
      → stop < length data_in
      → start + 3 ≤ stop
      → EndsAt (drop (start + 1) (set (set data_in (stop - 2) 0) (stop - 1) 0)) (stop - start - 3)
  zeroed-EndsAt start stop data_in h g =
      let i : ℕ = stop - 2 in
      let e : start + 1 + (stop - start - 3) ≡ i = omega arith in
      let n : stop - 1 ≡ suc i = omega arith in
      get_elem?-drop (start + 1) _ (stop - start - 3)
      ∙ rw (e, n)
          (get_elem?-set_next (set data_in i 0) i 0 ∙ get_elem?-set_self data_in i 0 (omega arith))

  check_packet-ne-fault :
      (rq_id start stop : ℕ) (data_in : Bytes) (o : Output Float) (c : Counters)
      → stop < length data_in
      → start + 3 ≤ stop
      → 16 ≤ length o.model
      → stop - start - 3 ≤ length o.rejected
      → IsBounded (of_code rq_id)
      → check_packet libc rq_id start stop data_in o c ≢ fault
  unfolding check_packet
  check_packet-ne-fault rq_id start stop data_in o c h g room copy b = ground (
    arith,
    get_elem?-ne-none data_in (stop - 2),
    get_elem?-ne-none data_in (stop - 1),
    read_packet-ne-fault rq_id start stop (set (set data_in (stop - 2) 0) (stop - 1) 0) o
        (record c { packet_cnt = c.packet_cnt + 1 }) (zeroed-EndsAt start stop data_in h g) room
        copy b,
  )

  -- Whatever bytes arrive, a call for any request but QPI, QOPMP, QLST and QPIHF returns: it makes
  -- no access out of bounds, given that the output holds the 16 bytes of a model and has room for
  -- the received bytes less 4, which is as much as is copied of a rejected packet.
  pub rs232_2400_rsp_parse_returns :
      (rq_id : ℕ) (data_in : Bytes) (o : Output Float) (c : Counters)
      → IsBounded (of_code rq_id)
      → 16 ≤ length o.model
      → length data_in ≤ length o.rejected + 4
      → (r : Parse Float) × (rs232_2400_rsp_parse libc rq_id data_in o c ≡ done r)
  unfolding rs232_2400_rsp_parse
  rs232_2400_rsp_parse_returns rq_id data_in o c b room copy =
      let start : ℕ = last_start 0 data_in no_start in
      let stop : ℕ = first_end start (drop start data_in) in
      returns_of (rs232_2400_rsp_parse libc rq_id data_in o c) (
        ground (
          arith,
          last_start_bounds 0 data_in no_start,
          first_end_bounds start (drop start data_in),
          length-drop start data_in,
          check_packet-ne-fault rq_id start stop data_in o c,
        ))
    where
      returns_of : (p : Outcome (Parse Float)) → p ≢ fault → (r : Parse Float) × (p ≡ done r)
      returns_of (done r) h = (r, refl)
      returns_of fault h = absurd (h refl)
