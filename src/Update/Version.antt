-- ===== src/Update/Version.antt =====
-- update.c: `get_fw_version_string`, and the `strtoul` that it calls three times.
use es_inverter.Base.{
  ℕ, ◌+◌, ◌-◌, ◌*◌, ◌<◌, ◌≡◌, refl, ap, ◌∙◌, arith, Bool, true, false, ◌||◌, ◌&&◌, [], ◌∷◌, ◌++◌,
  Bytes, drop, if◌then◌else◌, ◌==◌, leb, ltb, bit_or, u8,
}
use es_inverter.Rs232.Memory.{Outcome, done, fault, ◌>>=◌, is_digit}
use es_inverter.Base.Bits.{bit_or_shifted}
use es_inverter.Rs232.Values.{IsDigits, dec_from}

-- The decimal digits at the start of the memory, read onto an accumulator, and the memory behind.
unfoldable pub digits : ℕ → Bytes → Outcome (ℕ × Bytes)
digits acc [] = fault
digits acc (b ∷ rest) =
    let more = digits (acc * 10 + (b - b'0')) rest in
    if is_digit b then more else done (acc, b ∷ rest)

abbrev ulong_max : ℕ
ulong_max = 4294967295

-- A number that does not fit is replaced by the greatest; a minus sign negates it as a word.
abbrev saturated : Bool → ℕ → ℕ
saturated minus v =
    if ltb ulong_max v
    then ulong_max
    else if minus
    then (if v == 0 then 0 else ulong_max + 1 - v)
    else v

-- The digits behind a sign; without any, nothing is converted and the end is where it started.
abbrev convert : Bytes → Bool → Bytes → Outcome (ℕ × Bytes)
convert start minus [] = fault
convert start minus (b ∷ rest) =
    let read : Outcome (ℕ × Bytes) = do
      (v, after) ← digits 0 (b ∷ rest)
      done (saturated minus v, after)
    in if is_digit b then read else done (0, start)

abbrev signed : Bytes → Bytes → Outcome (ℕ × Bytes)
signed start [] = fault
signed start (b ∷ rest) =
    let negative = convert start true rest in
    let positive = convert start false rest in
    let plain = convert start false (b ∷ rest) in
    if b == b'-' then negative else if b == b'+' then positive else plain

abbrev spaced : Bytes → Bytes → Outcome (ℕ × Bytes)
spaced start [] = fault
spaced start (b ∷ rest) =
    let more = spaced start rest in
    let here = signed start (b ∷ rest) in if b == b' ' || (leb 9 b && leb b 13) then more else here

-- `strtoul` in base 10: the value, and the memory from the end pointer on.
unfoldable pub strtoul : Bytes → Outcome (ℕ × Bytes)
unfolding digits
strtoul mem = spaced mem mem

unfoldable pub get_fw_version_string : Bytes → Outcome ℕ
get_fw_version_string version = do
  (prod, after_prod) ← strtoul version
  (feat, after_feat) ← strtoul (drop 1 after_prod)
  (fix, after_fix) ← strtoul (drop 1 after_feat)
  done (bit_or (bit_or (u8 prod * 65536) (u8 feat * 256)) (u8 fix))

digits-dec_from :
    (acc : ℕ) (ds rest : Bytes) (stop : ℕ)
    → IsDigits ds
    → is_digit stop ≡ false
    → digits acc (ds ++ stop ∷ rest) ≡ done (dec_from acc ds, stop ∷ rest)
unfolding digits
digits-dec_from acc [] rest stop h e = rw e refl
digits-dec_from acc (d ∷ ds) rest stop h e =
    ground (arith, digits-dec_from (acc * 10 + (d - b'0')) ds rest stop h.1 e)

strtoul-dec_from :
    (d : ℕ) (ds rest : Bytes) (stop : ℕ)
    → IsDigits (d ∷ ds)
    → is_digit stop ≡ false
    → dec_from 0 (d ∷ ds) < 4294967296
    → strtoul ((d ∷ ds) ++ stop ∷ rest) ≡ done (dec_from 0 (d ∷ ds), stop ∷ rest)
unfolding strtoul
strtoul-dec_from d ds rest stop h e small =
    let read = digits-dec_from 0 (d ∷ ds) rest stop h e in
    let digit : is_digit d ≡ true = ground arith in ground (arith, read)

joined :
    (x y z : ℕ)
    → bit_or (bit_or (u8 x * 65536) (u8 y * 256)) (u8 z) ≡ (u8 x * 256 + u8 y) * 256 + u8 z
joined x y z =
    let high : bit_or (u8 x * 65536) (u8 y * 256) ≡ (u8 x * 256 + u8 y) * 256 =
      bit_or_shifted 16 (u8 x) (u8 y * 256) (omega arith) ∙ omega arith in
    ap (λ (t : ℕ). bit_or t (u8 z)) high
    ∙ bit_or_shifted 8 (u8 x * 256 + u8 y) (u8 z) (omega arith)
    ∙ omega arith

-- The version string "X.Y.Z" of three decimal numbers below 2^32, each with a digit at least, is read as the
-- number with the low byte of each in turn: of Z too, only one byte is kept.
pub get_fw_version_string-dec_from :
    (a b c : ℕ) (xs ys zs rest : Bytes)
    → IsDigits (a ∷ xs)
    → IsDigits (b ∷ ys)
    → IsDigits (c ∷ zs)
    → dec_from 0 (a ∷ xs) < 4294967296
    → dec_from 0 (b ∷ ys) < 4294967296
    → dec_from 0 (c ∷ zs) < 4294967296
    → get_fw_version_string ((a ∷ xs) ++ b'.' ∷ ((b ∷ ys) ++ b'.' ∷ ((c ∷ zs) ++ 0 ∷ rest)))
      ≡ done (
          (u8 (dec_from 0 (a ∷ xs)) * 256 + u8 (dec_from 0 (b ∷ ys))) * 256
          + u8 (dec_from 0 (c ∷ zs)))
unfolding get_fw_version_string
get_fw_version_string-dec_from a b c xs ys zs rest ha hb hc sa sb sc =
    let tail_c : Bytes = (c ∷ zs) ++ 0 ∷ rest in
    let tail_b : Bytes = (b ∷ ys) ++ b'.' ∷ tail_c in
    let ea = strtoul-dec_from a xs tail_b b'.' ha refl sa in
    let eb = strtoul-dec_from b ys tail_c b'.' hb refl sb in
    let ec = strtoul-dec_from c zs rest 0 hc refl sc in
    rw (ea, eb, ec)
      (ap (λ (n : ℕ). done n)
        (joined (dec_from 0 (a ∷ xs)) (dec_from 0 (b ∷ ys)) (dec_from 0 (c ∷ zs))))
