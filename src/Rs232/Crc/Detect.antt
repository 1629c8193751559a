-- ===== src/Rs232/Crc/Detect.antt =====
-- rs232_2400_protocol.c: what the CRC of `crc16_xmodem` detects.
use es_inverter.Base.{
  ℕ, ◌+◌, ◌*◌, ◌/◌, ◌%◌, ◌<◌, ◌≡◌, ◌≢◌, refl, sym, ap, ◌∙◌, true, List, [], ◌∷◌, ◌++◌, bit_xor,
  arith, Bytes, IsBytes, get_or, ◌==◌, if◌then◌else◌, ==_iff, all_below, holds_below,
}
use es_inverter.Base.Bits.{
  bit_xor_split_at, bit_xor_comm, bit_xor_self, bit_xor-zero, bit_xor-lt, bit_xor_cancel,
}
use es_inverter.Rs232.Crc.{crc16tab, crc_round, crc_loop, crc16_xmodem, crc_round-lt, crc_loop-lt}
use es_inverter.Rs232.Crc.Bitwise.{crc_round-table}

pub crc_loop-append :
    (crc : ℕ) (xs ys : Bytes) → crc_loop crc (xs ++ ys) ≡ crc_loop (crc_loop crc xs) ys
unfolding crc_loop
crc_loop-append crc [] ys = refl
crc_loop-append crc (x ∷ xs) ys = crc_loop-append (crc_round crc x) xs ys

crc_round_top : (crc : ℕ) → crc < 65536 → crc_round crc (crc / 256) ≡ crc % 256 * 256
unfolding crc16tab
crc_round_top crc h =
    crc_round-table crc (crc / 256) h (omega arith)
    ∙ ap (λ (t : ℕ). bit_xor (crc % 256 * 256) (get_or crc16tab t 0)) (bit_xor_self (crc / 256))
    ∙ bit_xor-zero (crc % 256 * 256)

crc_loop_residue : (crc : ℕ) → crc < 65536 → crc_loop crc (crc / 256 ∷ crc % 256 ∷ []) ≡ 0
unfolding crc_loop
crc_loop_residue crc h =
    let d : ℕ = crc % 256 * 256 in
    let e : d / 256 ≡ crc % 256 = omega arith in
    ap (λ (t : ℕ). crc_round t (crc % 256)) (crc_round_top crc h)
    ∙ ap (crc_round d) (sym e)
    ∙ crc_round_top d (omega arith)
    ∙ omega arith

-- A run of bytes followed by its own CRC, high byte first, has the CRC zero.
pub crc16_xmodem_residue :
    (buf : Bytes) → crc16_xmodem (buf ++ crc16_xmodem buf / 256 ∷ crc16_xmodem buf % 256 ∷ []) ≡ 0
unfolding crc16_xmodem
crc16_xmodem_residue buf =
    crc_loop-append 0 buf _ ∙ crc_loop_residue (crc_loop 0 buf) (crc_loop-lt 0 buf (omega arith))

-- The place of the first entry with a given low byte.
low_index : List ℕ → ℕ → ℕ
low_index [] x = 0
low_index (t ∷ ts) x = if t % 256 == x then 0 else low_index ts x + 1

low_index_entries : all_below 256 (λ i. low_index crc16tab (get_or crc16tab i 0 % 256) == i) ≡ true
unfolding all_below crc16tab low_index
low_index_entries = refl

-- The low bytes of the table's entries are all different.
low_byte_injective :
    (i j : ℕ) → i < 256 → j < 256 → get_or crc16tab i 0 % 256 ≡ get_or crc16tab j 0 % 256 → i ≡ j
low_byte_injective i j h g e =
    let back = λ (k : ℕ) (p : k < 256). (==_iff _ _).0 (holds_below _ 256 low_index_entries k p) in
    sym (back i h) ∙ ap (low_index crc16tab) e ∙ back j g

crc_round_parts :
    (crc byte : ℕ)
    → crc < 65536
    → byte < 256
    → let t = get_or crc16tab (bit_xor (crc / 256) byte) 0 in
      (crc_round crc byte % 256 ≡ t % 256)
      × (crc_round crc byte / 256 ≡ bit_xor (crc % 256) (t / 256))
crc_round_parts crc byte h g =
    let i : ℕ = bit_xor (crc / 256) byte in
    let hi : i < 256 = bit_xor-lt 8 (crc / 256) byte (omega arith) g in
    let t : ℕ = get_or crc16tab i 0 in
    let e =
      bit_xor_split_at 8 (crc % 256) (t / 256) 0 (t % 256) (crc % 256 * 256) t (omega arith)
        (omega arith) (omega arith) (omega arith) in
    let z = bit_xor_comm 0 (t % 256) ∙ bit_xor-zero (t % 256) in
    let r = crc_round-table crc byte h g in (omega (arith, e, z, r), omega (arith, e, z, r))

-- Equal registers after a round come from equal indices and equal low bytes.
crc_round_injective :
    (c d a b : ℕ)
    → c < 65536
    → d < 65536
    → a < 256
    → b < 256
    → crc_round c a ≡ crc_round d b
    → (bit_xor (c / 256) a ≡ bit_xor (d / 256) b) × (c % 256 ≡ d % 256)
crc_round_injective c d a b hc hd ha hb e =
    let i : ℕ = bit_xor (c / 256) a in
    let j : ℕ = bit_xor (d / 256) b in
    let p = crc_round_parts c a hc ha in
    let q = crc_round_parts d b hd hb in
    let same : i ≡ j =
      low_byte_injective i j (bit_xor-lt 8 (c / 256) a (omega arith) ha)
        (bit_xor-lt 8 (d / 256) b (omega arith) hb) (sym p.0 ∙ ap (λ (t : ℕ). t % 256) e ∙ q.0) in
    let ti : ℕ = get_or crc16tab i 0 in
    let tj : ℕ = get_or crc16tab j 0 in
    let tops : bit_xor (c % 256) (ti / 256) ≡ bit_xor (d % 256) (ti / 256) =
      sym p.1
      ∙ ap (λ (t : ℕ). t / 256) e
      ∙ q.1
      ∙ ap (λ (t : ℕ). bit_xor (d % 256) (get_or crc16tab t 0 / 256)) (sym same) in
    (
      same,
      sym (bit_xor_cancel (c % 256) (ti / 256))
          ∙ ap (λ (t : ℕ). bit_xor t (ti / 256)) tops
          ∙ bit_xor_cancel (d % 256) (ti / 256),
    )

left_cancel : (h a b : ℕ) → bit_xor h a ≡ bit_xor h b → a ≡ b
left_cancel h a b e =
    sym (bit_xor_cancel a h)
    ∙ ap (λ (t : ℕ). bit_xor t h) (bit_xor_comm a h ∙ e ∙ bit_xor_comm h b)
    ∙ bit_xor_cancel b h

crc_loop_injective :
    (c d : ℕ) (ys : Bytes)
    → c < 65536
    → d < 65536
    → IsBytes ys
    → crc_loop c ys ≡ crc_loop d ys
    → c ≡ d
unfolding crc_loop
crc_loop_injective c d [] hc hd hy e = e
crc_loop_injective c d (y ∷ ys) hc hd hy e =
    let (i, l) = crc_round_injective c d y y hc hd hy.0 hy.0 (
      crc_loop_injective (crc_round c y) (crc_round d y) ys (crc_round-lt c y) (crc_round-lt d y)
        hy.1 e) in
    let tops : c / 256 ≡ d / 256 =
      sym (bit_xor_cancel (c / 256) y)
      ∙ ap (λ (t : ℕ). bit_xor t y) i
      ∙ bit_xor_cancel (d / 256) y in
    omega arith

pub crc16_xmodem_injective :
    (xs ys : Bytes) (a b : ℕ)
    → a < 256
    → b < 256
    → IsBytes ys
    → crc16_xmodem (xs ++ a ∷ ys) ≡ crc16_xmodem (xs ++ b ∷ ys)
    → a ≡ b
unfolding crc16_xmodem crc_loop
crc16_xmodem_injective xs ys a b ha hb hy e =
    let c : ℕ = crc_loop 0 xs in
    let hc : c < 65536 = crc_loop-lt 0 xs (omega arith) in
    let after =
      crc_loop_injective (crc_round c a) (crc_round c b) ys (crc_round-lt c a) (crc_round-lt c b) hy
        (sym (crc_loop-append 0 xs (a ∷ ys)) ∙ e ∙ crc_loop-append 0 xs (b ∷ ys)) in
    left_cancel (c / 256) a b (crc_round_injective c c a b hc hc ha hb after).0

-- Two runs of bytes that differ in one byte only have different CRCs.
pub crc16_xmodem_one_byte :
    (xs ys : Bytes) (a b : ℕ)
    → a < 256
    → b < 256
    → IsBytes ys
    → a ≢ b
    → crc16_xmodem (xs ++ a ∷ ys) ≢ crc16_xmodem (xs ++ b ∷ ys)
crc16_xmodem_one_byte xs ys a b ha hb hy ne e = ne (crc16_xmodem_injective xs ys a b ha hb hy e)
