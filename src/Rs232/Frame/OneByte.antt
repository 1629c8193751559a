-- ===== src/Rs232/Frame/OneByte.antt =====
-- rs232_2400_protocol.c: a frame of which one byte was changed on the way.
use es_inverter.Base.{
  ℕ, ◌+◌, ◌*◌, ◌/◌, ◌%◌, ◌≤◌, ◌<◌, ◌≡◌, ◌≢◌, refl, ◌∙◌, ◌∷◌, ◌++◌, arith, Bytes, IsBytes, length,
  bit_or, ◌==◌, false, u16,
}
use es_inverter.Base.Bits.{bit_or_shifted}
use es_inverter.Rs232.Crc.{crc16_xmodem, crc16_xmodem-lt}
use es_inverter.Rs232.Crc.Detect.{crc16_xmodem_one_byte}
use es_inverter.Rs232.Frame.{Counters, rs232_2400_rsp_parse, no_start}
use es_inverter.Rs232.Frame.RoundTrip.{
  frame, refused, IsClean, joined_crc, found_frame, checked_frame,
}
use es_inverter.Rs232.Memory.{done}
use es_inverter.Rs232.Packet.{Output}
use es_inverter.Rs232.Scanf.{Scanf}

-- One byte of what follows the '(' was changed on the way: one of the contents, `a` to `b`, or one
-- of the two bytes of the CRC.
pub data IsChanged : Bytes → ℕ → ℕ → Type 0 where
  contents :
      (xs ys : Bytes) (a b : ℕ) {body : Bytes} {msb lsb : ℕ}
      → a < 256
      → b < 256
      → IsBytes ys
      → a ≢ b
      → body ≡ xs ++ b ∷ ys
      → msb ≡ crc16_xmodem (b'(' ∷ (xs ++ a ∷ ys)) / 256
      → lsb ≡ crc16_xmodem (b'(' ∷ (xs ++ a ∷ ys)) % 256
      → IsChanged body msb lsb
  high :
      {body : Bytes} {msb lsb : ℕ}
      → msb < 256
      → msb ≢ crc16_xmodem (b'(' ∷ body) / 256
      → lsb ≡ crc16_xmodem (b'(' ∷ body) % 256
      → IsChanged body msb lsb
  low :
      {body : Bytes} {msb lsb : ℕ}
      → lsb < 256
      → msb ≡ crc16_xmodem (b'(' ∷ body) / 256
      → lsb ≢ crc16_xmodem (b'(' ∷ body) % 256
      → IsChanged body msb lsb

IsChanged-mismatch :
    (body : Bytes) (msb lsb : ℕ)
    → IsChanged body msb lsb
    → (crc16_xmodem (b'(' ∷ body) == u16 (bit_or (msb * 256) lsb)) ≡ false
IsChanged-mismatch body msb lsb (contents xs ys a b ha hb hy ne arrived m l) =
    let sent : ℕ = crc16_xmodem (b'(' ∷ (xs ++ a ∷ ys)) in
    rw (arrived, m, l)
      (ground (
        arith,
        crc16_xmodem_one_byte (b'(' ∷ xs) ys a b ha hb hy ne,
        joined_crc (b'(' ∷ (xs ++ a ∷ ys)),
      ))
IsChanged-mismatch body msb lsb (high h ne l) =
    let crc : ℕ = crc16_xmodem (b'(' ∷ body) in
    ground (arith, bit_or_shifted 8 msb lsb (omega arith), crc16_xmodem-lt (b'(' ∷ body))
IsChanged-mismatch body msb lsb (low h m ne) =
    let crc : ℕ = crc16_xmodem (b'(' ∷ body) in
    ground (arith, bit_or_shifted 8 msb lsb h, crc16_xmodem-lt (b'(' ∷ body))

module _ (libc : Scanf) where
  open libc use {Float}

  -- A frame of which one byte between its '(' and its CR was changed on the way is refused with
  -- `PARSE_STATUS_INVALID_CRC`, and consumed up to its CR, if what arrived of the contents is not
  -- empty, neither it nor the CRC bytes that arrived hold a CR or a '(', and what follows holds no
  -- '('.
  pub rs232_2400_rsp_parse_one_byte :
      (rq_id : ℕ) (noise body rest : Bytes) (msb lsb : ℕ) (o : Output Float) (c : Counters)
      → IsChanged body msb lsb
      → length noise < no_start
      → 1 ≤ length body
      → IsClean body msb lsb rest
      → rs232_2400_rsp_parse libc rq_id (noise ++ frame body msb lsb rest) o c
        ≡ done (
            refused libc
              (length noise + (length body + 3) + 1)
              (noise ++ frame body msb lsb rest)
              o
              c)
  rs232_2400_rsp_parse_one_byte rq_id noise body rest msb lsb o c changed small filled clean =
      found_frame libc rq_id noise body msb lsb rest o c small filled clean
      ∙ checked_frame libc rq_id noise body msb lsb rest o c
      ∙ rw (IsChanged-mismatch body msb lsb changed) refl
