-- ===== src/Rs232/Frame/RoundTrip.antt =====
-- rs232_2400_protocol.c: what is serialised and received again.
use mathlib.Core.List.{append_assoc}
use es_inverter.Base.{
  ℕ, suc, ◌+◌, ◌-◌, ◌*◌, ◌/◌, ◌%◌, ◌≤◌, ◌<◌, ◌≡◌, refl, ap, ◌∙◌, List, [], ◌∷◌, ◌++◌, some, arith,
  Bytes, length, take, drop, set, get_elem?, bit_or, ◌==◌, if◌then◌else◌, Bool, true, u16,
  length-append,
}
use es_inverter.Base.Bits.{bit_or_shifted}
use es_inverter.Rs232.Crc.{crc16_xmodem, crc16_xmodem-lt}
use es_inverter.Rs232.Frame.{
  Counters, Parse, check_packet, read_packet, rs232_2400_rsp_parse, rs232_2400_serialize,
  last_start, first_end, no_start, status_invalid_crc,
}
use es_inverter.Rs232.Packet.{Output}
use es_inverter.Rs232.Frame.Search.{Without, last_start-append, first_end-append, drop-append}
use es_inverter.Rs232.Memory.{done}
use es_inverter.Rs232.Scanf.{Scanf}

module _ {ℓ} {A : Type ℓ} where
  get_elem?-append_add :
      (xs ys : List A) (k : ℕ) → get_elem? (xs ++ ys) (length xs + k) ≡ get_elem? ys k
  get_elem?-append_add [] ys k = ground arith
  get_elem?-append_add (x ∷ xs) ys k = ground (arith, get_elem?-append_add xs ys k)

  set-append_add :
      (xs ys : List A) (k : ℕ) (v : A) → set (xs ++ ys) (length xs + k) v ≡ xs ++ set ys k v
  set-append_add [] ys k v = ground arith
  set-append_add (x ∷ xs) ys k v = ground (arith, set-append_add xs ys k v)

  pub take-append : (xs ys : List A) → take (length xs) (xs ++ ys) ≡ xs
  take-append [] ys = refl
  take-append (x ∷ xs) ys = ap (◌∷◌ x) (take-append xs ys)

drop-suc-append {ℓ} :
    {A : Type ℓ} (xs : List A) (y : A) (ys : List A) → drop (suc (length xs)) (xs ++ y ∷ ys) ≡ ys
drop-suc-append [] y ys = refl
drop-suc-append (x ∷ xs) y ys = drop-suc-append xs y ys

-- The two CRC bytes, put together again.
pub joined_crc :
    (buf : Bytes)
    → u16 (bit_or (crc16_xmodem buf / 256 * 256) (crc16_xmodem buf % 256)) ≡ crc16_xmodem buf
joined_crc buf = omega (
  arith,
  bit_or_shifted 8 (crc16_xmodem buf / 256) (crc16_xmodem buf % 256) (omega arith),
  crc16_xmodem-lt buf,
)

-- A frame with the CRC bytes msb and lsb, and what stands behind it.
abbrev pub frame : Bytes → ℕ → ℕ → Bytes → Bytes
frame body msb lsb rest = b'(' ∷ (body ++ msb ∷ lsb ∷ b'\r' ∷ rest)

-- The contents and the CRC bytes hold no CR and, as what follows, no '('.
pub record IsClean (body : Bytes) (msb lsb : ℕ) (rest : Bytes) : Type 0 where
  pub no_cr : Without b'\r' (body ++ msb ∷ lsb ∷ [])
  pub no_open : Without b'(' (body ++ msb ∷ lsb ∷ b'\r' ∷ rest)

module _ (libc : Scanf) where
  open libc use {Float}

  pub found_frame :
      (rq_id : ℕ) (noise body : Bytes) (msb lsb : ℕ) (rest : Bytes) (o : Output Float)
      (c : Counters)
      → length noise < no_start
      → 1 ≤ length body
      → IsClean body msb lsb rest
      → rs232_2400_rsp_parse libc rq_id (noise ++ frame body msb lsb rest) o c
        ≡ check_packet libc rq_id
            (length noise)
            (length noise + (length body + 3))
            (noise ++ frame body msb lsb rest)
            o
            c
  unfolding rs232_2400_rsp_parse
  found_frame rq_id noise body msb lsb rest o c small filled clean =
      let bs : Bytes = frame body msb lsb rest in
      let crc : Bytes = msb ∷ lsb ∷ [] in
      let packet : Bytes = b'(' ∷ (body ++ crc) in
      let start : last_start 0 (noise ++ bs) no_start ≡ length noise =
        omega (arith, last_start-append 0 noise _ no_start clean.no_open) in
      let split : packet ++ b'\r' ∷ rest ≡ bs =
        ap (◌∷◌ b'(') (append_assoc body crc (b'\r' ∷ rest)) in
      let stop : first_end (length noise) bs ≡ length noise + (length body + 3) = rw (← split) (
        first_end-append (length noise) packet rest ((λ e. omega arith), clean.no_cr)
        ∙ omega (arith, length-append body crc)) in
      let size : length (noise ++ bs) ≡ length noise + length body + 4 + length rest =
        omega (arith, length-append noise bs, length-append body (msb ∷ lsb ∷ b'\r' ∷ rest)) in
      rw (start, drop-append noise bs, stop) (ground arith)

  -- The result for a packet with a wrong CRC.
  abbrev pub refused : ℕ → Bytes → Output Float → Counters → Parse Float
  refused consumed data_in o c = record {
    consumed = consumed;
    err = status_invalid_crc;
    buffer = data_in;
    output = o;
    counters = record c { packet_cnt = c.packet_cnt + 1; crc_err_cnt = c.crc_err_cnt + 1 };
  }

  pub checked_frame :
      (rq_id : ℕ) (noise body : Bytes) (msb lsb : ℕ) (rest : Bytes) (o : Output Float)
      (c : Counters)
      → check_packet libc rq_id
          (length noise)
          (length noise + (length body + 3))
          (noise ++ frame body msb lsb rest)
          o
          c
        ≡ (if crc16_xmodem (b'(' ∷ body) == u16 (bit_or (msb * 256) lsb)
            then read_packet libc rq_id
                (length noise)
                (length noise + (length body + 3))
                (noise ++ frame body 0 0 rest)
                o
                (record c { packet_cnt = c.packet_cnt + 1 })
            else done (
                refused
                  (length noise + (length body + 3) + 1)
                  (noise ++ frame body msb lsb rest)
                  o
                  c))
  unfolding check_packet
  checked_frame rq_id noise body msb lsb rest o c =
      let bs : Bytes = frame body msb lsb rest in
      let tail : Bytes = msb ∷ lsb ∷ b'\r' ∷ rest in
      let stop : ℕ = length noise + (length body + 3) in
      let i2 : stop - 2 ≡ length noise + suc (length body + 0) = omega arith in
      let i1 : stop - 1 ≡ length noise + suc (length body + 1) = omega arith in
      let n : stop - length noise - 2 ≡ suc (length body) = omega arith in
      let m : get_elem? (noise ++ bs) (stop - 2) ≡ some msb = rw i2 (
        get_elem?-append_add noise bs (suc (length body + 0)) ∙ get_elem?-append_add body tail 0) in
      let l : get_elem? (noise ++ bs) (stop - 1) ≡ some lsb = rw i1 (
        get_elem?-append_add noise bs (suc (length body + 1)) ∙ get_elem?-append_add body tail 1) in
      let covered : take (stop - length noise - 2) (drop (length noise) (noise ++ bs))
          ≡ b'(' ∷ body =
        rw (n, drop-append noise bs) (ap (◌∷◌ b'(') (take-append body tail)) in
      let zeroed : set (set (noise ++ bs) (stop - 2) 0) (stop - 1) 0
          ≡ noise ++ frame body 0 0 rest =
        rw (i2, i1, set-append_add noise bs (suc (length body + 0)) 0)
          (set-append_add noise _ (suc (length body + 1)) 0
            ∙ ap (λ (t : Bytes). noise ++ b'(' ∷ t)
                (ap (λ (t : Bytes). set t (length body + 1) 0) (set-append_add body tail 0 0)
                  ∙ set-append_add body (0 ∷ lsb ∷ b'\r' ∷ rest) 1 0)) in
      ground (
        arith,
        m,
        l,
        ap crc16_xmodem covered,
        ap
            (λ (t : Bytes).
              read_packet libc rq_id (length noise) stop t o
                (record c { packet_cnt = c.packet_cnt + 1 }))
            zeroed,
      )

  -- What `rs232_2400_serialize` makes of '(' and some contents is found by `rs232_2400_rsp_parse`
  -- among other bytes, passes its check, and is read with the same contents in the same place: the
  -- contents are not empty, and they and the two CRC bytes hold no CR and no '(', nor does what follows hold a '('.
  pub rs232_2400_rsp_parse-serialize :
      (malloc : ℕ → Bool) (rq_id : ℕ) (noise body rest : Bytes) (o : Output Float) (c : Counters)
      {wire : Bytes}
      → rs232_2400_serialize malloc (b'(' ∷ body) ≡ done wire
      → length noise < no_start
      → 1 ≤ length body
      → IsClean body (crc16_xmodem (b'(' ∷ body) / 256) (crc16_xmodem (b'(' ∷ body) % 256) rest
      → let stop = length noise + (length body + 3) in
        let buffer = noise ++ frame body 0 0 rest in
        (rs232_2400_rsp_parse libc rq_id (noise ++ (wire ++ rest)) o c
          ≡ read_packet libc rq_id
              (length noise)
              stop
              buffer
              o
              (record c { packet_cnt = c.packet_cnt + 1 }))
        × (drop (length noise + 1) buffer ≡ body ++ 0 ∷ 0 ∷ b'\r' ∷ rest)
        × (stop - length noise - 3 ≡ length body)
  unfolding rs232_2400_serialize
  rs232_2400_rsp_parse-serialize malloc rq_id noise body rest o c {wire} sent small filled clean =
      let crc : ℕ = crc16_xmodem (b'(' ∷ body) in
      let behind : Bytes = crc / 256 ∷ crc % 256 ∷ b'\r' ∷ [] in
      let made : wire ≡ b'(' ∷ (body ++ behind) = ground arith in
      let whole : wire ++ rest ≡ frame body (crc / 256) (crc % 256) rest =
        ap (λ (t : Bytes). t ++ rest) made ∙ ap (◌∷◌ b'(') (append_assoc body behind rest) in
      let passes : (crc == u16 (bit_or (crc / 256 * 256) (crc % 256))) ≡ true =
        ground (arith, joined_crc (b'(' ∷ body)) in
      let place : length noise + 1 ≡ suc (length noise) = omega arith in
      (
        rw whole (
            found_frame rq_id noise body (crc / 256) (crc % 256) rest o c small filled clean
            ∙ checked_frame rq_id noise body (crc / 256) (crc % 256) rest o c
            ∙ rw passes refl),
        rw place (drop-suc-append noise b'(' _),
        omega arith,
      )
