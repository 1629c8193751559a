-- ===== src/Rs232/Frame/Reported.antt =====
-- rs232_2400_protocol.c: the code that `rs232_2400_rsp_parse` reports, and the count of valid packets.
use es_inverter.Base.{
  ℕ, ◌+◌, ◌-◌, ◌*◌, ◌≡◌, ◌≢◌, refl, subst, ◌↔◌, ◌⊎◌, inl, inr, Bytes, drop, set, arith, ◌==◌, ℤ,
  to_word, is_zero, Option, none, some, bit_or, u16, Bool-cases, take,
}
use es_inverter.Rs232.Command.{of_code}
use es_inverter.Rs232.Crc.{crc16_xmodem}
use es_inverter.Rs232.Frame.{
  Counters, Parse, finish, read_packet, check_packet, no_packet, no_start, last_start, first_end,
  rs232_2400_rsp_parse, status_ok, status_unknown,
}
use es_inverter.Rs232.Frame.Contract.{rs232_2400_rsp_parse-Kept}
use es_inverter.Rs232.Memory.{done, byte_at, Outcome-cases}
use es_inverter.Rs232.Packet.{Output, parse_packet}
use es_inverter.Rs232.Parsers.{parse_rsp_is_nak}
use es_inverter.Rs232.Scanf.{Scanf}

-- The code is 0 where a valid packet more is counted; else the count stays and the code is another.
record IsCounted {Float : Type 0} (c : Counters) (r : Parse Float) : Type 0 where
  zero_if_valid : r.counters.valid_cnt ≢ c.valid_cnt → r.err ≡ status_unknown
  valid_if_zero : r.err ≡ status_unknown → r.counters.valid_cnt ≡ c.valid_cnt + 1

module _ (libc : Scanf) where
  open libc use {Float}

  finish-IsCounted :
      (stop : ℕ) (buffer : Bytes) (o : Output Float) (c : Counters)
      (result : Option (ℤ × Output Float))
      → IsCounted c (finish libc stop buffer o c result)
  unfolding finish
  finish-IsCounted stop buffer o c none = ground arith
  finish-IsCounted stop buffer o c (some (status, o')) =
      elim (Bool-cases (to_word 65536 status == 0)) [
        | inl ok ↦ record { zero_if_valid = λ h. ground arith; valid_if_zero = λ e. rw ok refl }
        | inr failed ↦ record {
          zero_if_valid = λ h. absurd (h (rw failed refl));
          valid_if_zero = λ e. absurd (ground arith);
        }
      ]

  read_packet-IsCounted :
      (rq_id start stop : ℕ) (buffer : Bytes) (o : Output Float) (c : Counters) {r : Parse Float}
      → read_packet libc rq_id start stop buffer o c ≡ done r
      → IsCounted c r
  unfolding read_packet
  read_packet-IsCounted rq_id start stop buffer o c {r} e =
      let packet : Bytes = drop (start + 1) buffer in
      let len : ℕ = stop - start - 3 in
      elim (Outcome-cases (parse_rsp_is_nak packet len)) [
        | inl f ↦ absurd (ground arith)
        | inr (v, nak) ↦ elim (Bool-cases (is_zero v)) [
          | inl rejected ↦ ground arith
          | inr other ↦ elim (Outcome-cases (parse_packet libc (of_code rq_id) packet len o)) [
            | inl f ↦ absurd (ground arith)
            | inr (result, p) ↦
                let q : finish libc stop buffer o c result ≡ r = ground arith in
                subst (IsCounted c) q (finish-IsCounted stop buffer o c result)
          ]
        ]
      ]

  check_packet-IsCounted :
      (rq_id start stop : ℕ) (data_in : Bytes) (o : Output Float) (c : Counters) {r : Parse Float}
      → check_packet libc rq_id start stop data_in o c ≡ done r
      → IsCounted c r
  unfolding check_packet
  check_packet-IsCounted rq_id start stop data_in o c {r} e =
      let exp : ℕ = crc16_xmodem (take (stop - start - 2) (drop start data_in)) in
      elim (Outcome-cases (byte_at data_in (stop - 2))) [
        | inl f ↦ absurd (ground arith)
        | inr (msb, m) ↦ elim (Outcome-cases (byte_at data_in (stop - 1))) [
          | inl f ↦ absurd (ground arith)
          | inr (lsb, l) ↦ elim (Bool-cases (exp == u16 (bit_or (msb * 256) lsb))) [
            | inl right ↦
                let read =
                  read_packet-IsCounted rq_id start stop
                    (set (set data_in (stop - 2) 0) (stop - 1) 0) o
                    (record c { packet_cnt = c.packet_cnt + 1 }) {r = r} (ground arith) in
                record { zero_if_valid = read.zero_if_valid; valid_if_zero = read.valid_if_zero }
            | inr wrong ↦ ground arith
          ]
        ]
      ]

  rs232_2400_rsp_parse-IsCounted :
      (rq_id : ℕ) (data_in : Bytes) (o : Output Float) (c : Counters) {r : Parse Float}
      → rs232_2400_rsp_parse libc rq_id data_in o c ≡ done r
      → IsCounted c r
  unfolding rs232_2400_rsp_parse no_packet
  rs232_2400_rsp_parse-IsCounted rq_id data_in o c {r} e =
      let start : ℕ = last_start 0 data_in no_start in
      let stop : ℕ = first_end start (drop start data_in) in
      ground (arith, check_packet-IsCounted rq_id start stop data_in o c {r = r})

  -- No call that returns reports `PARSE_STATUS_OK`. A call reports 0, which is
  -- `PARSE_STATUS_UNKNOWN`, just when it counts a valid packet more, and every other call leaves
  -- that count as it was.
  pub rs232_2400_rsp_parse_never_ok :
      (rq_id : ℕ) (data_in : Bytes) (o : Output Float) (c : Counters) {r : Parse Float}
      → rs232_2400_rsp_parse libc rq_id data_in o c ≡ done r
      → (r.err ≢ status_ok)
        × ((r.err ≡ status_unknown) ↔ (r.counters.valid_cnt ≡ c.valid_cnt + 1))
        × ((r.counters.valid_cnt ≡ c.valid_cnt + 1) ⊎ (r.counters.valid_cnt ≡ c.valid_cnt))
  rs232_2400_rsp_parse_never_ok rq_id data_in o c {r} e =
      let counted = rs232_2400_rsp_parse-IsCounted rq_id data_in o c {r = r} e in
      (
        λ ok. omega (arith, (rs232_2400_rsp_parse-Kept libc rq_id data_in o c e).known_err),
        (counted.valid_if_zero, λ more. counted.zero_if_valid (omega arith)),
        elim (Bool-cases (r.counters.valid_cnt == c.valid_cnt)) [
          | inl same ↦ inr (ground arith)
          | inr more ↦ inl (counted.valid_if_zero (counted.zero_if_valid (ground arith)))
        ],
      )
