-- ===== src/Rs232/Tests.antt =====
-- The serial protocol at concrete packets: a QMOD answer "(B", as sent and with a byte changed.
use es_inverter.Base.{
  ℕ, ◌+◌, ◌-◌, ◌≤◌, ◌<◌, ◌≡◌, ◌≢◌, ◌↔◌, ◌⊎◌, replicate, refl, arith, Bytes, drop, [], ◌∷◌, pos,
  negsuc, some, true,
}
use es_inverter.Rs232.Command.{qpi, qlst, qpihf, of_code}
use es_inverter.Rs232.Crc.{crc16_xmodem, crc_loop, crc_round, crc16tab}
use es_inverter.Rs232.Crc.Bitwise.{xmodem_from, crc16_xmodem-xmodem_from}
use es_inverter.Rs232.Crc.Detect.{crc16_xmodem_one_byte}
use es_inverter.Rs232.Example.{libc, output, counters}
use es_inverter.Rs232.Frame.{
  Counters, Parse, last_start, first_end, status_ok, status_unknown, finish, read_packet,
  check_packet, rs232_2400_rsp_parse, rs232_2400_serialize,
}
use es_inverter.Rs232.Packet.{parse_packet}
use es_inverter.Rs232.Frame.Contract.{Kept, rs232_2400_rsp_parse-Kept}
use es_inverter.Rs232.Frame.Faults.{parse_packet_faults}
use es_inverter.Rs232.Frame.Rejected.{rs232_2400_rsp_parse_rejected}
use es_inverter.Rs232.Frame.Reported.{rs232_2400_rsp_parse_never_ok}
use es_inverter.Rs232.Frame.RoundTrip.{frame, refused, rs232_2400_rsp_parse-serialize}
use es_inverter.Rs232.Frame.OneByte.{contents, rs232_2400_rsp_parse_one_byte}
use es_inverter.Rs232.Frame.Safety.{rs232_2400_rsp_parse_returns}
use es_inverter.Rs232.Memory.{done, fault, strncmp}
use es_inverter.Rs232.Parsers.{parse_rsp_is_nak, parse_rsp_qmod}
use es_inverter.Rs232.Values.{parse_rsp_qpiws-flags_from, strdec2int_lem}
use es_inverter.Rs232.Words.{strdec2int, parse_rsp_qpiws}

abbrev counted : Counters
counted = record { crc_err_cnt = 0; valid_cnt = 0; packet_cnt = 1 }

-- A line feed, and the answer "(B" with its CRC.
abbrev answer : Bytes
answer = 10 ∷ b'(' ∷ b'B' ∷ 231 ∷ 201 ∷ b'\r' ∷ []

rs232_2400_rsp_parse-serialize_example :
    (rs232_2400_rsp_parse libc 10 answer output counters
      ≡ read_packet libc 10 1 5 (10 ∷ frame (b'B' ∷ []) 0 0 []) output counted)
    × (drop 2 (10 ∷ frame (b'B' ∷ []) 0 0 []) ≡ b'B' ∷ 0 ∷ 0 ∷ b'\r' ∷ [])
    × (5 - 1 - 3 ≡ 1)
unfolding rs232_2400_serialize crc16_xmodem crc_loop crc_round crc16tab
rs232_2400_rsp_parse-serialize_example =
    rs232_2400_rsp_parse-serialize libc (λ size. true) 10 (10 ∷ []) (b'B' ∷ []) [] output counters
      {wire = b'(' ∷ b'B' ∷ 231 ∷ 201 ∷ b'\r' ∷ []} refl (omega arith) (omega arith)
      (record { no_cr = ground arith; no_open = ground arith })

-- 'B' was sent, and 'A' arrives.
rs232_2400_rsp_parse_one_byte_example :
    rs232_2400_rsp_parse libc 10 (10 ∷ frame (b'A' ∷ []) 231 201 []) output counters
    ≡ done (refused libc 6 (10 ∷ frame (b'A' ∷ []) 231 201 []) output counters)
unfolding crc16_xmodem crc_loop crc_round crc16tab
rs232_2400_rsp_parse_one_byte_example =
    rs232_2400_rsp_parse_one_byte libc 10 (10 ∷ []) (b'A' ∷ []) [] 231 201 output counters
      (contents [] [] b'B' b'A' (omega arith) (omega arith) tt (λ e. omega arith) refl refl refl)
      (omega arith) (omega arith) (record { no_cr = ground arith; no_open = ground arith })

rs232_2400_rsp_parse_returns_example :
    (r : Parse ℕ) × (rs232_2400_rsp_parse libc 10 answer output counters ≡ done r)
unfolding of_code
rs232_2400_rsp_parse_returns_example =
    rs232_2400_rsp_parse_returns libc 10 answer output counters tt (omega arith) (omega arith)

-- The answer read: mode 'B', six bytes consumed, status 0.
abbrev answer_read : Parse ℕ
answer_read = record {
  consumed = 6;
  err = 0;
  buffer = 10 ∷ b'(' ∷ b'B' ∷ 0 ∷ 0 ∷ b'\r' ∷ [];
  output = record output { number = b'B' };
  counters = record { crc_err_cnt = 0; valid_cnt = 1; packet_cnt = 1 };
}

answer_is_read : rs232_2400_rsp_parse libc 10 answer output counters ≡ done answer_read
unfolding rs232_2400_rsp_parse last_start first_end check_packet read_packet parse_packet finish
    parse_rsp_is_nak parse_rsp_qmod of_code crc16_xmodem crc_loop crc_round crc16tab strncmp
answer_is_read = refl

rs232_2400_rsp_parse-Kept_example : Kept 6 counters answer_read
rs232_2400_rsp_parse-Kept_example =
    rs232_2400_rsp_parse-Kept libc 10 answer output counters answer_is_read

rs232_2400_rsp_parse_never_ok_example :
    (answer_read.err ≢ status_ok)
    × ((answer_read.err ≡ status_unknown)
        ↔ (answer_read.counters.valid_cnt ≡ counters.valid_cnt + 1))
    × ((answer_read.counters.valid_cnt ≡ counters.valid_cnt + 1)
        ⊎ (answer_read.counters.valid_cnt ≡ counters.valid_cnt))
rs232_2400_rsp_parse_never_ok_example =
    rs232_2400_rsp_parse_never_ok libc 10 answer output counters answer_is_read

-- "(NAK" with its CRC, which is "ss".
rs232_2400_rsp_parse_rejected_example :
    ((3 ≤ 16)
      × (rs232_2400_rsp_parse libc 10
            (10 ∷ b'(' ∷ b'N' ∷ b'A' ∷ b'K' ∷ b's' ∷ b's' ∷ b'\r' ∷ [])
            output
            counters
          ≡ done (record {
            consumed = 8;
            err = 4;
            buffer = 10 ∷ b'(' ∷ b'N' ∷ b'A' ∷ b'K' ∷ 0 ∷ 0 ∷ b'\r' ∷ [];
            output = record output { rejected = b'N' ∷ b'A' ∷ b'K' ∷ replicate 13 0 };
            counters = counted;
          })))
    ⊎ ((16 < 3)
        × (rs232_2400_rsp_parse libc 10
              (10 ∷ b'(' ∷ b'N' ∷ b'A' ∷ b'K' ∷ b's' ∷ b's' ∷ b'\r' ∷ [])
              output
              counters
            ≡ fault))
unfolding rs232_2400_serialize crc16_xmodem crc_loop crc_round crc16tab
rs232_2400_rsp_parse_rejected_example =
    rs232_2400_rsp_parse_rejected libc (λ size. true) 10 (10 ∷ []) [] [] output counters
      {wire = b'(' ∷ b'N' ∷ b'A' ∷ b'K' ∷ b's' ∷ b's' ∷ b'\r' ∷ []} refl (omega arith)
      (record { no_cr = ground arith; no_open = ground arith })

crc16_xmodem-xmodem_from_example :
    crc16_xmodem (b'1' ∷ b'2' ∷ b'3' ∷ []) ≡ xmodem_from 0 (b'1' ∷ b'2' ∷ b'3' ∷ [])
crc16_xmodem-xmodem_from_example = crc16_xmodem-xmodem_from (b'1' ∷ b'2' ∷ b'3' ∷ []) (ground arith)

crc16_xmodem_one_byte_example :
    crc16_xmodem (b'(' ∷ b'B' ∷ b'Q' ∷ []) ≢ crc16_xmodem (b'(' ∷ b'A' ∷ b'Q' ∷ [])
crc16_xmodem_one_byte_example =
    crc16_xmodem_one_byte (b'(' ∷ []) (b'Q' ∷ []) b'B' b'A' (omega arith) (omega arith)
      (ground arith) (λ e. omega arith)

parse_packet_faults_example :
    (parse_packet libc (some qpihf) answer 5 output ≡ fault)
    × (parse_packet libc (some qlst) answer 5 output ≡ fault)
    × (parse_packet libc (some qpi) (b'P' ∷ b'I' ∷ b'3' ∷ b'0' ∷ answer) 5 output ≡ fault)
parse_packet_faults_example =
    parse_packet_faults libc answer 5 b'3' b'0' output (omega arith) (λ e. omega arith)
      (λ e. omega arith)

parse_rsp_qpiws-flags_from_example :
    parse_rsp_qpiws (b'1' ∷ b'0' ∷ b'1' ∷ 0 ∷ []) 3 0 ≡ done (pos 0, 10)
parse_rsp_qpiws-flags_from_example =
    parse_rsp_qpiws-flags_from (b'1' ∷ b'0' ∷ b'1' ∷ 0 ∷ []) 3 0 (omega arith) (omega arith)

strdec2int_lem_example :
    (strdec2int (b'2' ∷ b'1' ∷ b'4' ∷ b'7' ∷ b'4' ∷ b'8' ∷ b'3' ∷ b'6' ∷ b'4' ∷ b'7' ∷ 0 ∷ []) 10
      ≡ done (pos 0, pos 2147483647))
    × (strdec2int (b'-' ∷ b'4' ∷ b'2' ∷ 0 ∷ []) 3 ≡ done (pos 0, negsuc 257))
strdec2int_lem_example =
    strdec2int_lem (b'2' ∷ b'1' ∷ b'4' ∷ b'7' ∷ b'4' ∷ b'8' ∷ b'3' ∷ b'6' ∷ b'4' ∷ b'7' ∷ [])
      (b'4' ∷ b'2' ∷ []) (0 ∷ []) (omega arith) (omega arith) (omega arith) (omega arith)
