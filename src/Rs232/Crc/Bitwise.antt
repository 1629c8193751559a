-- ===== src/Rs232/Crc/Bitwise.antt =====
-- The table-driven CRC against the bit-by-bit definition of CRC-16/XMODEM.
use es_inverter.Base.{
  ℕ, zero, suc, ◌+◌, ◌-◌, ◌*◌, ◌/◌, ◌%◌, ◌^◌, ◌≤◌, ◌<◌, ◌≡◌, refl, sym, ap, ◌∙◌, true, [], ◌∷◌,
  bit_xor, arith, Bytes, IsBytes, get_or, ltb, ◌==◌, if◌then◌else◌, ==_iff, Bool-cases, inl, inr,
  all_below, holds_below,
}
use native.Mathlib.Nat.{pow-suc, one-le-pow}
use es_inverter.Base.Bits.{
  bit_xor_comm, bit_xor-zero, bit_xor-lt, bit_xor_double, bit_xor_split_at, bit_xor_right_comm,
}
use es_inverter.Rs232.Crc.{crc16tab, crc_round, crc_loop, crc16_xmodem, crc_round-lt}

-- The 16-bit register shifts out its top bit, which feeds the polynomial x^12 + x^5 + 1 back.
abbrev shift_bit : ℕ → ℕ
shift_bit x = if ltb x 32768 then x * 2 else bit_xor (x * 2 - 65536) 0x1021

abbrev shift_bits : ℕ → ℕ → ℕ
shift_bits zero x = x
shift_bits (suc k) x = shift_bits k (shift_bit x)

-- A byte is combined with the top half of the register, which then shifts eight times.
pub xmodem_from : ℕ → Bytes → ℕ
xmodem_from crc [] = crc
xmodem_from crc (byte ∷ rest) = xmodem_from (shift_bits 8 (bit_xor crc (byte * 256))) rest

-- The digits below the top bit pass through a shift unchanged.
shift_bit_xor :
    (x y : ℕ) → x < 65536 → y < 32768 → shift_bit (bit_xor x y) ≡ bit_xor (shift_bit x) (y * 2)
shift_bit_xor x y h g = elim (Bool-cases (ltb x 32768)) [
  | inl low ↦
      let b : bit_xor x y < 32768 = bit_xor-lt 15 x y (ground arith) g in
      ground (arith, bit_xor_double x y)
  | inr high ↦
      let r : ℕ = x - 32768 in
      let e : bit_xor x y ≡ 32768 + bit_xor r y =
        bit_xor_split_at 15 1 0 r y x y (ground arith) (omega arith) (ground arith) g in
      let b : bit_xor r y < 32768 = bit_xor-lt 15 r y (ground arith) g in
      let d : bit_xor x y * 2 - 65536 ≡ bit_xor (r * 2) (y * 2) =
        omega (arith, bit_xor_double r y) in
      let f : x * 2 - 65536 ≡ r * 2 = omega arith in
      rw high (
        ground (
          arith,
          ap (λ (t : ℕ). bit_xor t 0x1021) d,
          ap (λ (t : ℕ). bit_xor (bit_xor t 0x1021) (y * 2)) f,
          bit_xor_right_comm (r * 2) (y * 2) 0x1021,
        ))
]

shift_bit-lt : (x : ℕ) → x < 65536 → shift_bit x < 65536
shift_bit-lt x h = elim (Bool-cases (ltb x 32768)) [
  | inl low ↦ ground arith
  | inr high ↦ rw high (bit_xor-lt 16 (x * 2 - 65536) 0x1021 (omega arith) (omega arith))
]

shift_bits_xor :
    (k x y : ℕ)
    → x < 65536
    → y * 2 ^ k < 65536
    → shift_bits k (bit_xor x y) ≡ bit_xor (shift_bits k x) (y * 2 ^ k)
shift_bits_xor zero x y h g = ap (λ (t : ℕ). bit_xor x t) (omega arith)
shift_bits_xor (suc k) x y h g =
    let e : y * 2 ^ suc k ≡ y * 2 * 2 ^ k = omega (arith, ap (λ (t : ℕ). y * t) (pow-suc 2 k)) in
    let small : y < 32768 = below_top y (2 ^ k) (one-le-pow k 2 (omega arith)) (omega arith) in
    ap (shift_bits k) (shift_bit_xor x y h small)
    ∙ shift_bits_xor k (shift_bit x) (y * 2) (shift_bit-lt x h) (omega arith)
    ∙ ap (λ (t : ℕ). bit_xor (shift_bits k (shift_bit x)) t) (sym e)
  where
    below_top : (a m : ℕ) → 1 ≤ m → a * 2 * m < 65536 → a < 32768
    below_top a m p q = grind arith

-- Each entry of the table is its index, shifted eight times from the top half.
crc16tab_entries : all_below 256 (λ i. get_or crc16tab i 0 == shift_bits 8 (i * 256)) ≡ true
unfolding all_below crc16tab
crc16tab_entries = refl

get_or-crc16tab : (i : ℕ) → i < 256 → get_or crc16tab i 0 ≡ shift_bits 8 (i * 256)
get_or-crc16tab i h = (==_iff _ _).0 (holds_below _ 256 crc16tab_entries i h)

shift_bits-lt : (k x : ℕ) → x < 65536 → shift_bits k x < 65536
shift_bits-lt zero x h = h
shift_bits-lt (suc k) x h = shift_bits-lt k (shift_bit x) (shift_bit-lt x h)

-- The register, seen as its index into the table and its low byte.
pub crc_round-table :
    (crc byte : ℕ)
    → crc < 65536
    → byte < 256
    → crc_round crc byte ≡ bit_xor (crc % 256 * 256) (get_or crc16tab (bit_xor (crc / 256) byte) 0)
unfolding crc_round
crc_round-table crc byte h g =
    let i : ℕ = bit_xor (crc / 256) byte in
    let hi : i < 256 = bit_xor-lt 8 (crc / 256) byte (omega arith) g in
    let t : ℕ = get_or crc16tab i 0 in
    let ht : t < 65536 = rw (get_or-crc16tab i hi) (shift_bits-lt 8 (i * 256) (omega arith)) in
    let e =
      bit_xor_split_at 16 (crc / 256) 0 (crc % 256 * 256) t (crc * 256) t (omega arith)
        (omega arith) (omega arith) ht in
    let b = bit_xor-lt 16 (crc % 256 * 256) t (omega arith) ht in
    let cut : i % 256 ≡ i = omega arith in rw cut (omega (arith, e, b))

crc_round-shift_bits :
    (crc byte : ℕ)
    → crc < 65536
    → byte < 256
    → crc_round crc byte ≡ shift_bits 8 (bit_xor crc (byte * 256))
crc_round-shift_bits crc byte h g =
    let i : ℕ = bit_xor (crc / 256) byte in
    let l : ℕ = crc % 256 in
    let hi : i < 256 = bit_xor-lt 8 (crc / 256) byte (omega arith) g in
    let e : bit_xor crc (byte * 256) ≡ i * 256 + l = omega (
      arith,
      bit_xor_split_at 8 (crc / 256) byte l 0 crc (byte * 256) (omega arith) (omega arith)
          (omega arith) (omega arith),
      bit_xor-zero l,
    ) in
    let f : bit_xor (i * 256) l ≡ i * 256 + l = omega (
      arith,
      bit_xor_split_at 8 i 0 0 l (i * 256) l (omega arith) (omega arith) (omega arith)
          (omega arith),
      bit_xor_comm 0 l,
      bit_xor-zero l,
      bit_xor-zero i,
    ) in
    crc_round-table crc byte h g
    ∙ bit_xor_comm (l * 256) _
    ∙ ap (λ (t : ℕ). bit_xor t (l * 256)) (get_or-crc16tab i hi)
    ∙ sym (shift_bits_xor 8 (i * 256) l (omega arith) (omega arith))
    ∙ ap (shift_bits 8) (f ∙ sym e)

crc_loop-xmodem_from :
    (crc : ℕ) (buf : Bytes) → crc < 65536 → IsBytes buf → crc_loop crc buf ≡ xmodem_from crc buf
unfolding crc_loop xmodem_from
crc_loop-xmodem_from crc [] h g = refl
crc_loop-xmodem_from crc (byte ∷ rest) h g =
    crc_loop-xmodem_from (crc_round crc byte) rest (crc_round-lt crc byte) g.1
    ∙ ap (λ (t : ℕ). xmodem_from t rest) (crc_round-shift_bits crc byte h g.0)

-- For every run of bytes, `crc16_xmodem` with its table computes what the bit-by-bit
-- CRC-16/XMODEM (polynomial 0x1021, start value 0, top bit first) computes.
pub crc16_xmodem-xmodem_from : (buf : Bytes) → IsBytes buf → crc16_xmodem buf ≡ xmodem_from 0 buf
unfolding crc16_xmodem
crc16_xmodem-xmodem_from buf h = crc_loop-xmodem_from 0 buf (omega arith) h
