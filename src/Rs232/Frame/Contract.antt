-- ===== src/Rs232/Frame/Contract.antt =====
-- What every call of `rs232_2400_rsp_parse` that returns keeps to.
use es_inverter.Base.{
  ℕ, zero, suc, ◌+◌, ◌-◌, ◌*◌, ◌≤◌, ◌<◌, ◌≡◌, refl, ap, subst, ◌∙◌, ◌⊎◌, inl, inr, Bytes, length,
  drop, set, arith, ◌==◌, ℤ, pos, negsuc, to_word, is_zero, Option, none, some, bit_or, u16,
  length-set, length-drop, Bool-cases, take,
}
use es_inverter.Rs232.Command.{of_code}
use es_inverter.Rs232.Crc.{crc16_xmodem}
use es_inverter.Rs232.Frame.{
  Counters, Parse, finish, read_packet, check_packet, no_packet, no_start, last_start, first_end,
  rs232_2400_rsp_parse, status_unknown, status_no_packet, status_invalid_crc, status_rq_rejected,
}
use es_inverter.Rs232.Packet.{Output, parse_packet}
use es_inverter.Rs232.Frame.Search.{first_end_bounds, last_start_bounds}
use es_inverter.Rs232.Frame.Status.{IsStatus, parse_packet-IsStatus}
use es_inverter.Rs232.Memory.{done, byte_at, Outcome-cases}
use es_inverter.Rs232.Parsers.{parse_rsp_is_nak}
use es_inverter.Rs232.Scanf.{Scanf}

-- An error code that a caller can see: 0 after a parser's success, the codes for no packet, a
-- wrong CRC and a rejected request, and the codes -1 to -4 as 16-bit words.
abbrev pub IsErr : ℕ → Type 0
IsErr e =
    (e ≡ status_unknown)
    ⊎ (e ≡ status_no_packet)
    ⊎ (e ≡ status_invalid_crc)
    ⊎ (e ≡ status_rq_rejected)
    ⊎ ((65532 ≤ e) × (e ≤ 65535))

-- What holds of a result, given the length of the data and the counters before.
pub record Kept {Float : Type 0} (n : ℕ) (c : Counters) (r : Parse Float) : Type 0 where
  pub consumed_le : r.consumed ≤ n
  pub same_length : length r.buffer ≡ n
  pub known_err : IsErr r.err
  pub counted :
      r.counters.crc_err_cnt + r.counters.valid_cnt + c.packet_cnt
      ≤ c.crc_err_cnt + c.valid_cnt + r.counters.packet_cnt

word_IsErr : (s : ℤ) → IsStatus s → IsErr (to_word 65536 s)
word_IsErr (pos zero) h = omega arith
word_IsErr (pos (suc n)) h = absurd h
word_IsErr (negsuc k) h = omega arith

module _ (libc : Scanf) where
  open libc use {Float}

  -- The same of a packet with a right CRC, which has been counted.
  record Read (stop : ℕ) (buffer : Bytes) (c : Counters) (r : Parse Float) : Type 0 where
    consumed : r.consumed ≡ stop + 1
    kept : r.buffer ≡ buffer
    known : IsErr r.err
    counts :
        r.counters.crc_err_cnt + r.counters.valid_cnt + c.packet_cnt
        ≤ c.crc_err_cnt + c.valid_cnt + 1 + r.counters.packet_cnt

  finish-Read :
      (stop : ℕ) (buffer : Bytes) (o : Output Float) (c : Counters)
      (result : Option (ℤ × Output Float))
      → ((status : ℤ) (o' : Output Float) → result ≡ some (status, o') → IsStatus status)
      → Read stop buffer c (finish libc stop buffer o c result)
  unfolding finish
  finish-Read stop buffer o c none h = ground arith
  finish-Read stop buffer o c (some (status, o')) h = record {
    consumed = refl;
    kept = refl;
    known = word_IsErr status (h status o' refl);
    counts = ground arith;
  }

  read_packet-Read :
      (rq_id start stop : ℕ) (buffer : Bytes) (o : Output Float) (c : Counters) {r : Parse Float}
      → read_packet libc rq_id start stop buffer o c ≡ done r
      → Read stop buffer c r
  unfolding read_packet
  read_packet-Read rq_id start stop buffer o c {r} e =
      let packet : Bytes = drop (start + 1) buffer in
      let len : ℕ = stop - start - 3 in
      elim (Outcome-cases (parse_rsp_is_nak packet len)) [
        | inl f ↦ absurd (ground arith)
        | inr (v, nak) ↦ elim (Bool-cases (is_zero v)) [
          | inl rejected ↦ ground arith
          | inr other ↦ elim (Outcome-cases (parse_packet libc (of_code rq_id) packet len o)) [
            | inl f ↦ absurd (ground arith)
            | inr (result, p) ↦
                let q : finish libc stop buffer o c result ≡ r = ground arith in
                subst (Read stop buffer c) q (
                  finish-Read stop buffer o c result
                    (λ s o' e'. parse_packet-IsStatus libc _ packet len o (p ∙ ap done e')))
          ]
        ]
      ]

  check_packet-Kept :
      (rq_id start stop : ℕ) (data_in : Bytes) (o : Output Float) (c : Counters) {r : Parse Float}
      → stop < length data_in
      → check_packet libc rq_id start stop data_in o c ≡ done r
      → Kept (length data_in) c r
  unfolding check_packet
  check_packet-Kept rq_id start stop data_in o c {r} h e =
      let exp : ℕ = crc16_xmodem (take (stop - start - 2) (drop start data_in)) in
      elim (Outcome-cases (byte_at data_in (stop - 2))) [
        | inl f ↦ absurd (ground arith)
        | inr (msb, m) ↦ elim (Outcome-cases (byte_at data_in (stop - 1))) [
          | inl f ↦ absurd (ground arith)
          | inr (lsb, l) ↦ elim (Bool-cases (exp == u16 (bit_or (msb * 256) lsb))) [
            | inl right ↦
                let buffer : Bytes = set (set data_in (stop - 2) 0) (stop - 1) 0 in
                let read =
                  read_packet-Read rq_id start stop buffer o
                    (record c { packet_cnt = c.packet_cnt + 1 }) {r = r} (ground arith) in
                record {
                  consumed_le = omega (arith, read.consumed);
                  same_length =
                      ap length read.kept
                      ∙ length-set (set data_in (stop - 2) 0) (stop - 1) 0
                      ∙ length-set data_in (stop - 2) 0;
                  known_err = read.known;
                  counted = omega (arith, read.counts);
                }
            | inr wrong ↦ ground arith
          ]
        ]
      ]

  no_packet-Kept :
      (consumed : ℕ) (data_in : Bytes) (o : Output Float) (c : Counters)
      → consumed ≤ length data_in
      → Kept (length data_in) c (no_packet libc consumed data_in o c)
  unfolding no_packet
  no_packet-Kept consumed data_in o c h = ground arith

  -- Every call that returns consumes no more than it was given, keeps the length of the buffer,
  -- answers with a known error code, and counts no more packets as wrong or valid than it counts
  -- packets.
  pub rs232_2400_rsp_parse-Kept :
      (rq_id : ℕ) (data_in : Bytes) (o : Output Float) (c : Counters) {r : Parse Float}
      → rs232_2400_rsp_parse libc rq_id data_in o c ≡ done r
      → Kept (length data_in) c r
  unfolding rs232_2400_rsp_parse
  rs232_2400_rsp_parse-Kept rq_id data_in o c {r} e =
      let start : ℕ = last_start 0 data_in no_start in
      let stop : ℕ = first_end start (drop start data_in) in
      let found = last_start_bounds 0 data_in no_start in
      let ended = first_end_bounds start (drop start data_in) in
      ground (
        arith,
        found,
        ended,
        length-drop start data_in,
        no_packet-Kept 0 data_in o c,
        no_packet-Kept start data_in o c,
        no_packet-Kept (length data_in) data_in o c,
        check_packet-Kept rq_id start stop data_in o c {r = r},
      )
