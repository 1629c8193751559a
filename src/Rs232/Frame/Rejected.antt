-- ===== src/Rs232/Frame/Rejected.antt =====
-- rs232_2400_protocol.c: a request that the inverter rejects with "(NAK".
use es_inverter.Base.{
  ℕ, ◌+◌, ◌/◌, ◌%◌, ◌≤◌, ◌<◌, ◌≡◌, ◌∙◌, ◌⊎◌, inl, inr, Bool, true, ◌∷◌, ◌++◌, arith, Bytes, length,
  take, leb, Bool-cases, length-append,
}
use es_inverter.Rs232.Crc.{crc16_xmodem}
use es_inverter.Rs232.Frame.{
  Counters, no_start, read_packet, rs232_2400_rsp_parse, rs232_2400_serialize, status_rq_rejected,
}
use es_inverter.Rs232.Frame.RoundTrip.{frame, IsClean, take-append, rs232_2400_rsp_parse-serialize}
use es_inverter.Rs232.Memory.{done, fault, write_over}
use es_inverter.Rs232.Packet.{Output}
use es_inverter.Rs232.Parsers.{parse_rsp_is_nak}
use es_inverter.Rs232.Scanf.{Scanf}

module _ (libc : Scanf) where
  open libc use {Float}

  -- The contents of a rejection.
  abbrev pub nak : Bytes → Bytes
  nak text = b'N' ∷ b'A' ∷ b'K' ∷ text

  -- A rejection with some text behind it that was serialised and arrives among other bytes: it is
  -- reported as `PARSE_STATUS_RQ_REJECTED` and copied to the start of the output when the output has
  -- room for all of it, and is written past the end of the output when it has not. The text and the
  -- CRC bytes hold no CR and no '(', and what follows holds no '('.
  pub rs232_2400_rsp_parse_rejected :
      (malloc : ℕ → Bool) (rq_id : ℕ) (noise text rest : Bytes) (o : Output Float) (c : Counters)
      {wire : Bytes}
      → rs232_2400_serialize malloc (b'(' ∷ nak text) ≡ done wire
      → length noise < no_start
      → IsClean
          (nak text)
          (crc16_xmodem (b'(' ∷ nak text) / 256)
          (crc16_xmodem (b'(' ∷ nak text) % 256)
          rest
      → ((length text + 3 ≤ length o.rejected)
          × (rs232_2400_rsp_parse libc rq_id (noise ++ (wire ++ rest)) o c
              ≡ done (record {
                consumed = length noise + (length (nak text) + 3) + 1;
                err = status_rq_rejected;
                buffer = noise ++ frame (nak text) 0 0 rest;
                output = record o { rejected = write_over (nak text) o.rejected };
                counters = record c { packet_cnt = c.packet_cnt + 1 };
              })))
        ⊎ ((length o.rejected < length text + 3)
            × (rs232_2400_rsp_parse libc rq_id (noise ++ (wire ++ rest)) o c ≡ fault))
  unfolding read_packet parse_rsp_is_nak
  rs232_2400_rsp_parse_rejected malloc rq_id noise text rest o c {wire} sent small clean =
      let body : Bytes = nak text in
      let behind : Bytes = body ++ 0 ∷ 0 ∷ b'\r' ∷ rest in
      let (found, at, len) =
        rs232_2400_rsp_parse-serialize libc malloc rq_id noise body rest o c {wire = wire} sent
          small (omega arith) clean in
      let held : leb (0 + length body) (length behind) ≡ true =
        ground (arith, length-append body (0 ∷ 0 ∷ b'\r' ∷ rest)) in
      let copied : take (length body) behind ≡ body = take-append body (0 ∷ 0 ∷ b'\r' ∷ rest) in
      elim (Bool-cases (leb (length body) (length o.rejected))) [
        | inl fits ↦ inl (ground arith, found ∙ rw (at, len) (ground (arith, held, copied)))
        | inr long ↦ inr (ground arith, found ∙ rw (at, len) (ground (arith, held, copied)))
      ]
