-- ===== src/Rs232/Frame.antt =====
-- rs232_2400_protocol.c: `rs232_2400_rsp_parse`, which finds a packet in the received bytes, checks
-- its CRC and hands it to the parser of the request (in Packet), and `rs232_2400_serialize`.
pub mod Search
pub mod Status
pub mod Contract
pub mod Bounded
pub mod Safety
pub mod Reported
pub mod Rejected
pub mod Faults
pub mod RoundTrip
pub mod OneByte
use es_inverter.Base.{
  ℕ, zero, suc, ◌+◌, ◌-◌, ◌*◌, ◌/◌, ◌%◌, Bool, not, List, [], ◌∷◌, ◌++◌, Option, none, some, Bytes,
  length, take, drop, set, bit_or, ltb, leb, ◌==◌, if◌then◌else◌, ℤ, is_zero, to_word, u16,
}
use es_inverter.Rs232.Command.{
  Command, of_code, qpi, qid, qvfw, qvfw2, qvfw3, qpiri, qmd, qflag, qpigs, qmod, qgov, qgof, qopmp,
  qmpptv, qpvipv, qlst, qtpr, qdi2, qgltv, qdm, qpihf, qchgs, qpicf, qpiws,
}
use es_inverter.Rs232.Crc.{crc16_xmodem}
use es_inverter.Rs232.Memory.{Outcome, done, fault, ◌>>=◌, byte_at, bytes_at, write_over}
use es_inverter.Rs232.Packet.{Output, parse_packet}
use es_inverter.Rs232.Parsers.{
  Parsed, parse_rsp_is_nak, parse_rsp_qpi, parse_rsp_qid, parse_rsp_qvfw, parse_rsp_qmd,
  parse_rsp_qflag, parse_rsp_qmod,
}
use es_inverter.Rs232.Response.{
  QidResponse, Qdi2Response, QtprResponse, QgofResponse, QpiriResponse, QflagResponse,
  QpigsResponse, HiloVoltageResponse, QchgsResponse,
}
use es_inverter.Rs232.Scanf.{Scanf}
use es_inverter.Rs232.Scanned.{
  parse_rsp_qpiri, parse_rsp_qpigs, parse_rsp_qgov, parse_rsp_qgof, parse_rsp_qmpptv,
  parse_rsp_qpvipv, parse_rsp_qtpr, parse_rsp_qdi2, parse_rsp_qgltv, parse_rsp_qdm, parse_rsp_qchgs,
}
use es_inverter.Rs232.Words.{
  parse_rsp_qpiws, parse_rsp_qpicf, parse_rsp_qopmp, parse_rsp_qlst, parse_rsp_qpihf,
}

-- `parse_status_t`
abbrev pub status_unknown : ℕ
status_unknown = 0

abbrev pub status_ok : ℕ
status_ok = 1

abbrev pub status_no_packet : ℕ
status_no_packet = 2

abbrev pub status_invalid_crc : ℕ
status_invalid_crc = 3

abbrev pub status_rq_rejected : ℕ
status_rq_rejected = 4

-- The static counters of the module.
pub record Counters : Type 0 where
  pub crc_err_cnt : ℕ
  pub valid_cnt : ℕ
  pub packet_cnt : ℕ

-- What a call returns and leaves behind.
pub record Parse (Float : Type 0) : Type 0 where
  pub consumed : ℕ
  pub err : ℕ
  pub buffer : Bytes
  pub output : Output Float
  pub counters : Counters

-- The index of the last '(' of the bytes from index i on, else `found`.
unfoldable pub last_start : ℕ → Bytes → ℕ → ℕ
last_start i [] found = found
last_start i (b ∷ rest) found = last_start (i + 1) rest (if b == b'(' then i else found)

-- The index of the first CR of the bytes from index i on, or 0.
unfoldable pub first_end : ℕ → Bytes → ℕ
first_end i [] = 0
first_end i (b ∷ rest) = if b == b'\r' then i else first_end (i + 1) rest

abbrev pub no_start : ℕ
no_start = 0xFFFFFFFF

module _ (libc : Scanf) where
  open libc use {Float}

  -- The end of the call, once the request's parser is done.
  unfoldable pub finish :
      ℕ → Bytes → Output Float → Counters → Option (ℤ × Output Float) → Parse Float
  finish stop buffer o c none = record {
    consumed = stop + 1;
    err = status_no_packet;
    buffer = buffer;
    output = o;
    counters = c;
  }
  finish stop buffer o c (some (status, o')) = record {
    consumed = stop + 1;
    err = to_word 65536 status;
    buffer = buffer;
    output = o';
    counters = if to_word 65536 status == 0 then record c { valid_cnt = c.valid_cnt + 1 } else c;
  }

  -- A packet with a right CRC, in the buffer where the CRC has been zeroed.
  unfoldable pub read_packet : ℕ → ℕ → ℕ → Bytes → Output Float → Counters → Outcome (Parse Float)
  read_packet rq_id start stop buffer o c =
      let packet : Bytes = drop (start + 1) buffer in
      let packet_len : ℕ = stop - start - 3 in
      let rejected : Outcome (Parse Float) = do
        text ← bytes_at packet 0 packet_len
        if leb packet_len (length o.rejected)
            then done (record {
              consumed = stop + 1;
              err = status_rq_rejected;
              buffer = buffer;
              output = record o { rejected = write_over text o.rejected };
              counters = c;
            })
            else fault
      in let parsed : Outcome (Parse Float) = do
        result ← parse_packet libc (of_code rq_id) packet packet_len o
        done (finish stop buffer o c result)
        in do
          nak_err ← parse_rsp_is_nak packet packet_len
          if is_zero nak_err then rejected else parsed

  -- The packet from the '(' at `start` to the CR at `stop`: its CRC, then its contents.
  unfoldable pub check_packet : ℕ → ℕ → ℕ → Bytes → Output Float → Counters → Outcome (Parse Float)
  check_packet rq_id start stop data_in o c =
      let counted : Counters = record c { packet_cnt = c.packet_cnt + 1 } in
      let exp_crc : ℕ = crc16_xmodem (take (stop - start - 2) (drop start data_in)) in
      let wrong : Parse Float = record {
        consumed = stop + 1;
        err = status_invalid_crc;
        buffer = data_in;
        output = o;
        counters = record counted { crc_err_cnt = c.crc_err_cnt + 1 };
      } in
      let right : Outcome (Parse Float) =
        read_packet rq_id start stop (set (set data_in (stop - 2) 0) (stop - 1) 0) o counted in
      do
        msb ← byte_at data_in (stop - 2)
        lsb ← byte_at data_in (stop - 1)
        if exp_crc == u16 (bit_or (msb * 256) lsb) then right else done wrong

  -- A call that finds no packet.
  unfoldable pub no_packet : ℕ → Bytes → Output Float → Counters → Parse Float
  no_packet consumed data_in o c = record {
    consumed = consumed;
    err = status_no_packet;
    buffer = data_in;
    output = o;
    counters = c;
  }

  unfoldable pub rs232_2400_rsp_parse : ℕ → Bytes → Output Float → Counters → Outcome (Parse Float)
  rs232_2400_rsp_parse rq_id data_in o c =
      let start : ℕ = last_start 0 data_in no_start in
      let stop : ℕ = first_end start (drop start data_in) in
      if ltb (length data_in) 5
      then done (no_packet 0 data_in o c)
      else if start == no_start
      then done (no_packet (length data_in) data_in o c)
      else if stop == 0
      then done (no_packet start data_in o c)
      else if leb (stop - start) 2
      then done (no_packet start data_in o c)
      else check_packet rq_id start stop data_in o c

-- `rs232_2400_serialize`; `malloc` says whether an allocation of that size succeeds, and without
-- the memory the assertion stops the program.
unfoldable pub rs232_2400_serialize : (ℕ → Bool) → Bytes → Outcome Bytes
rs232_2400_serialize malloc payload =
    let crc : ℕ = crc16_xmodem payload in
    if malloc (length payload + 3)
    then done (payload ++ crc / 256 ∷ crc % 256 ∷ b'\r' ∷ [])
    else fault
