-- ===== src/Rs232/Values.antt =====
-- rs232_2400_protocol.c: the parsers of `Words` against independent readings of the text.
use es_inverter.Base.{
  ℕ, zero, suc, ◌+◌, ◌-◌, ◌*◌, ◌/◌, ◌≤◌, ◌<◌, ◌≡◌, refl, ap, ◌∙◌, [], ◌∷◌, ◌++◌, arith, Bytes,
  IsBytes, All, length, take, bit_or, ◌==◌, if◌then◌else◌, pos, negsuc, u32, u64,
}
use native.Mathlib.Numerals.{add-one}
use es_inverter.Base.Bits.{bit_or_shifted}
use es_inverter.Rs232.Memory.{done, int_result}
use es_inverter.Rs232.Words.{
  warning_loop, parse_rsp_qpiws, fault_loop, parse_rsp_qpicf, dec_loop, strdec2int,
}

-- The number whose binary digits, highest first, are '1' where a flag is set.
abbrev pub flags_from : ℕ → Bytes → ℕ
flags_from acc [] = acc
flags_from acc (b ∷ bs) = flags_from (acc * 2 + (if b == b'1' then 1 else 0)) bs

warning_loop-flags_from :
    (n acc : ℕ) (mem : Bytes)
    → n ≤ length mem
    → warning_loop n mem (u64 (acc * 2)) ≡ done (pos 0, u64 (flags_from acc (take n mem) * 2))
unfolding warning_loop
warning_loop-flags_from zero acc mem h = refl
warning_loop-flags_from (suc n) acc [] h = absurd (omega arith)
warning_loop-flags_from (suc n) acc (b ∷ mem) h =
    let w : ℕ = u64 (acc * 2) in
    let bit : ℕ = if b == b'1' then 1 else 0 in
    let even : w ≡ w / 2 * 2 = omega arith in
    let set : bit_or w 1 ≡ w + 1 =
      ap (λ (t : ℕ). bit_or t 1) even ∙ bit_or_shifted 1 (w / 2) 1 (omega arith) ∙ omega arith in
    let next : u64 ((if b == b'1' then bit_or w 0x1 else w) * 2) ≡ u64 ((acc * 2 + bit) * 2) =
      ground (arith, set) in
    rw next (warning_loop-flags_from n (acc * 2 + bit) mem (omega arith))

-- The warning flags of up to 64 characters are read as a binary number, doubled, in 64 bits: bit 0
-- is never set, and of 64 characters the first is lost.
pub parse_rsp_qpiws-flags_from :
    (mem : Bytes) (len w : ℕ)
    → len ≤ 64
    → len ≤ length mem
    → parse_rsp_qpiws mem len w ≡ done (pos 0, u64 (flags_from 0 (take len mem) * 2))
unfolding parse_rsp_qpiws
parse_rsp_qpiws-flags_from mem len w h g = ground (arith, warning_loop-flags_from len 0 mem g)

fault_step : (q b : ℕ) → b < 256 → u32 (bit_or (u32 (q * 256)) b * 256) ≡ u32 ((q * 256 + b) * 256)
fault_step q b h =
    let w : ℕ = u32 (q * 256) in
    let e : w ≡ w / 256 * 256 = omega arith in
    let set : bit_or w b ≡ w + b =
      ap (λ (t : ℕ). bit_or t b) e ∙ bit_or_shifted 8 (w / 256) b h ∙ omega arith in
    omega (arith, set)

abbrev bytes_from : ℕ → Bytes → ℕ
bytes_from acc [] = acc
bytes_from acc (b ∷ bs) = bytes_from (acc * 256 + b) bs

fault_loop-bytes_from :
    (bs rest : Bytes) (q : ℕ)
    → IsBytes bs
    → fault_loop (length bs) (bs ++ rest) (u32 (q * 256))
      ≡ done (pos 0, u32 (bytes_from q bs * 256))
unfolding fault_loop
fault_loop-bytes_from [] rest q h = refl
fault_loop-bytes_from (b ∷ bs) rest q h =
    rw (fault_step q b h.0) (fault_loop-bytes_from bs rest (q * 256 + b) h.1)

-- The fault code of four bytes is the last three, shifted up by one byte: the first is lost.
pub parse_rsp_qpicf_loses_first :
    (a b c d : ℕ) (rest : Bytes) (code : ℕ)
    → IsBytes (a ∷ b ∷ c ∷ d ∷ [])
    → parse_rsp_qpicf (a ∷ b ∷ c ∷ d ∷ rest) 4 code ≡ done (pos 0, ((b * 256 + c) * 256 + d) * 256)
unfolding parse_rsp_qpicf
parse_rsp_qpicf_loses_first a b c d rest code h =
    let value : u32 (bytes_from 0 (a ∷ b ∷ c ∷ d ∷ []) * 256) ≡ ((b * 256 + c) * 256 + d) * 256 =
      omega arith in
    fault_loop-bytes_from (a ∷ b ∷ c ∷ d ∷ []) rest 0 h ∙ ap (λ (t : ℕ). done (pos 0, t)) value

-- Decimal digits.
abbrev pub IsDigits : Bytes → Type 0
IsDigits = All (λ b. (b'0' ≤ b) × (b ≤ b'9'))

-- The number that decimal digits stand for, behind those of acc.
abbrev pub dec_from : ℕ → Bytes → ℕ
dec_from acc [] = acc
dec_from acc (b ∷ bs) = dec_from (acc * 10 + (b - b'0')) bs

-- Starting from -m instead, the same digits count upwards.
abbrev pub dec_below : ℕ → Bytes → ℕ
dec_below m [] = m
dec_below m (b ∷ bs) = dec_below (m * 10 - (b - b'0')) bs

dec_from-le : (acc : ℕ) (ds : Bytes) → acc ≤ dec_from acc ds
dec_from-le acc [] = omega arith
dec_from-le acc (b ∷ ds) = omega (arith, dec_from-le (acc * 10 + (b - b'0')) ds)

dec_loop-dec_from :
    (acc : ℕ) (ds rest : Bytes)
    → IsDigits ds
    → dec_from acc ds < 2147483648
    → dec_loop (length ds) (ds ++ rest) (pos acc) ≡ done (pos 0, pos (dec_from acc ds))
unfolding dec_loop int_result
dec_loop-dec_from acc [] rest h g = refl
dec_loop-dec_from acc (b ∷ ds) rest h g =
    let le = dec_from-le (acc * 10 + (b - b'0')) ds in
    ground (arith, dec_loop-dec_from (acc * 10 + (b - b'0')) ds rest h.1 g)

dec_below-pos :
    (m : ℕ) (ds : Bytes) → IsDigits ds → 0 < m → dec_below m ds < 2147483648 → 0 < dec_below m ds
dec_below-pos m [] h p g = p
dec_below-pos m (b ∷ ds) h p g = dec_below-pos (m * 10 - (b - b'0')) ds h.1 (omega arith) g

dec_below-ge : (m : ℕ) (ds : Bytes) → IsDigits ds → 0 < m → m ≤ dec_below m ds
dec_below-ge m [] h p = omega arith
dec_below-ge m (b ∷ ds) h p = omega (arith, dec_below-ge (m * 10 - (b - b'0')) ds h.1 (omega arith))

dec_loop-dec_below :
    (m : ℕ) (ds rest : Bytes)
    → IsDigits ds
    → dec_below (suc m) ds < 200000000
    → dec_loop (length ds) (ds ++ rest) (negsuc m) ≡ done (pos 0, negsuc (dec_below (suc m) ds - 1))
unfolding dec_loop int_result
dec_loop-dec_below m [] rest h g = ground arith
dec_loop-dec_below m (b ∷ ds) rest h g =
    let next : ℕ = suc m * 10 - (b - b'0') in
    let le = dec_below-ge next ds h.1 (omega arith) in
    let e : suc (next - 1) ≡ next = omega arith in
    ground (
      arith,
      dec_loop-dec_below (next - 1) ds rest h.1 (rw e g),
      e,
      ap (λ (t : ℕ). dec_below t ds) e,
    )

-- Digits whose number fits an `int` are read as that number. Behind a minus sign digits are not read
-- as the negation of their number: the sign counts as the digit -3, from where they count on, as far
-- as -200000000 is not reached.
pub strdec2int_lem :
    (ds es rest : Bytes)
    → IsDigits ds
    → dec_from 0 ds < 2147483648
    → IsDigits es
    → dec_below 3 es < 200000000
    → (strdec2int (ds ++ rest) (length ds) ≡ done (pos 0, pos (dec_from 0 ds)))
      × (strdec2int (b'-' ∷ (es ++ rest)) (length es + 1)
          ≡ done (pos 0, negsuc (dec_below 3 es - 1)))
unfolding strdec2int dec_loop int_result
strdec2int_lem ds es rest h small g below = (
  dec_loop-dec_from 0 ds rest h small,
  ap (λ (n : ℕ). strdec2int (b'-' ∷ (es ++ rest)) n) (add-one (length es))
      ∙ dec_loop-dec_below 2 es rest g below,
)
