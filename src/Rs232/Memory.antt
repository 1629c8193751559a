-- ===== src/Rs232/Memory.antt =====
-- Reads of C memory with their bounds, and the functions of the C library that the parsers call on
-- strings. `fault` stands for undefined behaviour: an access out of bounds, a string with no end,
-- or a signed overflow.
pub mod Total
use es_inverter.Base.{
  ℕ, zero, suc, ◌+◌, ◌-◌, ◌*◌, ◌%◌, ◌≡◌, refl, ◌⊎◌, inl, inr, Bool, true, false, not, ◌&&◌, ◌||◌,
  Option, none, some, List, [], ◌∷◌, ◌++◌, arith, Bytes, length, take, drop, get_elem?, set, leb,
  ltb, ◌==◌, if◌then◌else◌, ℤ, pos, negsuc, ◌+ℤ◌, ◌-ℤ◌, ◌*ℤ◌, ltb_ℤ, sub_ℕ, u64,
}

pub data Outcome {ℓ} (A : Type ℓ) : Type ℓ where
  done : A → Outcome A
  fault : Outcome A

infixl 5 ◌>>=◌
abbrev pub ◌>>=◌ {ℓ κ} : {A : Type ℓ} {B : Type κ} → Outcome A → (A → Outcome B) → Outcome B
done a >>= f = f a
fault >>= f = fault

pub Outcome-cases {ℓ} : {A : Type ℓ} (o : Outcome A) → (o ≡ fault) ⊎ ((a : A) × (o ≡ done a))
Outcome-cases (done a) = inr (a, refl)
Outcome-cases fault = inl refl

-- The byte at an index.
abbrev pub byte_at : Bytes → ℕ → Outcome ℕ
byte_at mem i = elim (get_elem? mem i) [ none ↦ fault | some b ↦ done b ]

-- `memcpy` of n bytes from an index.
abbrev pub bytes_at : Bytes → ℕ → ℕ → Outcome Bytes
bytes_at mem i n = if leb (i + n) (length mem) then done (take n (drop i mem)) else fault

-- The string that starts here: what stands before the first NUL.
unfoldable pub c_string : Bytes → Outcome Bytes
c_string [] = fault
c_string (b ∷ rest) =
    let tail = c_string rest in if b == 0 then done [] else do s ← tail; done (b ∷ s)

-- What `%.*s` with a precision of n prints: at most n bytes, and none from the first NUL on.
unfoldable pub printed : ℕ → Bytes → Outcome Bytes
printed zero mem = done []
printed (suc n) [] = fault
printed (suc n) (b ∷ rest) =
    let tail = printed n rest in if b == 0 then done [] else do s ← tail; done (b ∷ s)

-- `strncmp`: the difference of the first two bytes that differ, within n bytes and up to a NUL.
unfoldable pub strncmp : Bytes → Bytes → ℕ → Outcome ℤ
strncmp s t zero = done (pos 0)
strncmp [] t (suc n) = fault
strncmp (a ∷ s) [] (suc n) = fault
strncmp (a ∷ s) (b ∷ t) (suc n) =
    let rest = strncmp s t n in
    if not (a == b) then done (sub_ℕ a b) else if a == 0 then done (pos 0) else rest

abbrev pub is_digit : ℕ → Bool
is_digit b = leb b'0' b && leb b b'9'

-- The decimal digits at the start of a string, read onto an accumulator.
unfoldable pub digits_from : ℕ → Bytes → ℕ
digits_from acc [] = acc
digits_from acc (b ∷ rest) =
    let more = digits_from (acc * 10 + (b - b'0')) rest in if is_digit b then more else acc

-- White space is skipped.
unfoldable pub skip_space : Bytes → Bytes
skip_space [] = []
skip_space (b ∷ rest) = if b == b' ' || (leb 9 b && leb b 13) then skip_space rest else b ∷ rest

abbrev signed_from : Bytes → ℤ
signed_from [] = pos 0
signed_from (b ∷ rest) =
    if b == b'-'
    then pos 0 -ℤ pos (digits_from 0 rest)
    else if b == b'+'
    then pos (digits_from 0 rest)
    else pos (digits_from 0 (b ∷ rest))

-- `atoi`, within the range of an `int`.
unfoldable pub atoi : Bytes → ℤ
unfolding skip_space digits_from
atoi s = signed_from (skip_space s)

-- `strtoull` in base 10 of a string with no sign.
unfoldable pub strtoull : Bytes → ℕ
unfolding skip_space digits_from
strtoull s = u64 (digits_from 0 (skip_space s))

-- The result of arithmetic on `int`; an overflow is undefined.
unfoldable pub int_result : ℤ → Outcome ℤ
int_result v = if ltb_ℤ v (negsuc 2147483647) || ltb_ℤ (pos 2147483647) v then fault else done v

-- A write of one byte to an array.
abbrev pub store_at : Bytes → ℕ → ℕ → Outcome Bytes
store_at array i v = if ltb i (length array) then done (set array i v) else fault

-- An array whose first bytes are written over.
abbrev pub write_over : Bytes → Bytes → Bytes
write_over new old = new ++ drop (length new) old
