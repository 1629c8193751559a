-- ===== src/Rs232/Frame/Search.antt =====
-- Where `rs232_2400_rsp_parse` finds the start and the end of a packet.
use es_inverter.Base.{
  ℕ, ◌+◌, ◌≤◌, ◌<◌, ◌≡◌, ◌≢◌, refl, ◌⊎◌, inl, List, [], ◌∷◌, ◌++◌, arith, Bytes, length, drop, ◌==◌,
  All, if◌then◌else◌,
}
use es_inverter.Rs232.Frame.{last_start, first_end}

-- No byte of the run is b.
abbrev pub Without : ℕ → Bytes → Type 0
Without b = All (λ c. c ≢ b)

pub first_end_bounds :
    (i : ℕ) (bs : Bytes)
    → (first_end i bs ≡ 0) ⊎ ((i ≤ first_end i bs) × (first_end i bs < i + length bs))
unfolding first_end
first_end_bounds i [] = inl refl
first_end_bounds i (b ∷ rest) = ground (arith, first_end_bounds (i + 1) rest)

pub last_start_bounds :
    (i : ℕ) (bs : Bytes) (found : ℕ)
    → (last_start i bs found ≡ found) ⊎ (last_start i bs found < i + length bs)
unfolding last_start
last_start_bounds i [] found = inl refl
last_start_bounds i (b ∷ rest) found =
    ground (arith, last_start_bounds (i + 1) rest found, last_start_bounds (i + 1) rest i)

-- Behind the last '(' nothing changes the index.
pub last_start-Without :
    (i : ℕ) (bs : Bytes) (found : ℕ) → Without b'(' bs → last_start i bs found ≡ found
unfolding last_start
last_start-Without i [] found h = refl
last_start-Without i (b ∷ rest) found h = ground (arith, last_start-Without (i + 1) rest found h.1)

-- The last '(' is found, whatever stands in front of it.
pub last_start-append :
    (i : ℕ) (noise bs : Bytes) (found : ℕ)
    → Without b'(' bs
    → last_start i (noise ++ b'(' ∷ bs) found ≡ i + length noise
unfolding last_start
last_start-append i [] bs found h = omega (arith, last_start-Without (i + 1) bs i h)
last_start-append i (b ∷ noise) bs found h =
    omega (arith, last_start-append (i + 1) noise bs (if b == b'(' then i else found) h)

-- The first CR is found behind a run without one.
pub first_end-append :
    (i : ℕ) (bs rest : Bytes) → Without b'\r' bs → first_end i (bs ++ b'\r' ∷ rest) ≡ i + length bs
unfolding first_end
first_end-append i [] rest h = omega arith
first_end-append i (b ∷ bs) rest h = ground (arith, first_end-append (i + 1) bs rest h.1)

pub drop-append {ℓ} : {A : Type ℓ} (xs ys : List A) → drop (length xs) (xs ++ ys) ≡ ys
drop-append [] ys = refl
drop-append (x ∷ xs) ys = drop-append xs ys
