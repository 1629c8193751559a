-- ===== src/Rs232/Memory/Total.antt =====
-- When the reads of `Memory` stay within bounds.
use es_inverter.Base.{
  ℕ, zero, suc, ◌+◌, ◌-◌, ◌≤◌, ◌<◌, ◌≡◌, ◌≢◌, refl, ap, ◌∙◌, List, [], ◌∷◌, ◌++◌, some, none, arith,
  Bytes, length, get_elem?, set, drop,
}
use es_inverter.Rs232.Memory.{fault, bytes_at, c_string, printed, strncmp, write_over}

pub get_elem?-lt {ℓ} :
    {A : Type ℓ} (xs : List A) (i : ℕ) {v : A} → get_elem? xs i ≡ some v → i < length xs
get_elem?-lt [] i e = cc
get_elem?-lt (x ∷ xs) zero e = omega arith
get_elem?-lt (x ∷ xs) (suc i) e = omega (arith, get_elem?-lt xs i e)

pub get_elem?-ne-none {ℓ} :
    {A : Type ℓ} (xs : List A) (i : ℕ) → i < length xs → get_elem? xs i ≢ none
get_elem?-ne-none [] i h = absurd (omega arith)
get_elem?-ne-none (x ∷ xs) zero h = λ e. cc
get_elem?-ne-none (x ∷ xs) (suc i) h = get_elem?-ne-none xs i (omega arith)

pub get_elem?-set_self {ℓ} :
    {A : Type ℓ} (xs : List A) (i : ℕ) (v : A) → i < length xs → get_elem? (set xs i v) i ≡ some v
get_elem?-set_self [] i v h = absurd (omega arith)
get_elem?-set_self (x ∷ xs) zero v h = refl
get_elem?-set_self (x ∷ xs) (suc i) v h = get_elem?-set_self xs i v (omega arith)

pub get_elem?-set_next {ℓ} :
    {A : Type ℓ} (xs : List A) (i : ℕ) (v : A) → get_elem? (set xs (suc i) v) i ≡ get_elem? xs i
get_elem?-set_next [] i v = refl
get_elem?-set_next (x ∷ xs) zero v = refl
get_elem?-set_next (x ∷ xs) (suc i) v = get_elem?-set_next xs i v

pub get_elem?-drop {ℓ} :
    {A : Type ℓ} (n : ℕ) (xs : List A) (i : ℕ) → get_elem? (drop n xs) i ≡ get_elem? xs (n + i)
get_elem?-drop zero xs i = ground arith
get_elem?-drop (suc n) [] i = refl
get_elem?-drop (suc n) (x ∷ xs) i = ground (arith, get_elem?-drop n xs i)

-- A NUL at some index ends the string.
pub c_string-ne-fault : (mem : Bytes) (i : ℕ) → get_elem? mem i ≡ some 0 → c_string mem ≢ fault
unfolding c_string
c_string-ne-fault [] i e = cc
c_string-ne-fault (b ∷ mem) zero e = ground arith
c_string-ne-fault (b ∷ mem) (suc i) e = ground (arith, c_string-ne-fault mem i e)

pub printed-ne-fault :
    (n : ℕ) (mem : Bytes) (i : ℕ) → get_elem? mem i ≡ some 0 → printed n mem ≢ fault
unfolding printed
printed-ne-fault zero mem i e = λ f. cc
printed-ne-fault (suc n) [] i e = cc
printed-ne-fault (suc n) (b ∷ mem) zero e = ground arith
printed-ne-fault (suc n) (b ∷ mem) (suc i) e = ground (arith, printed-ne-fault n mem i e)

pub strncmp-ne-fault : (s t : Bytes) (n : ℕ) → n ≤ length s → n ≤ length t → strncmp s t n ≢ fault
unfolding strncmp
strncmp-ne-fault s t zero h g = ground arith
strncmp-ne-fault [] t (suc n) h g = absurd (omega arith)
strncmp-ne-fault (a ∷ s) [] (suc n) h g = absurd (omega arith)
strncmp-ne-fault (a ∷ s) (b ∷ t) (suc n) h g =
    ground (arith, strncmp-ne-fault s t n (omega arith) (omega arith))

pub bytes_at-ne-fault : (mem : Bytes) (i n : ℕ) → i + n ≤ length mem → bytes_at mem i n ≢ fault
bytes_at-ne-fault mem i n h = ground arith

pub get_elem?-append_right {ℓ} :
    {A : Type ℓ} (xs ys : List A) (i : ℕ)
    → length xs ≤ i
    → get_elem? (xs ++ ys) i ≡ get_elem? ys (i - length xs)
get_elem?-append_right [] ys i h = ground arith
get_elem?-append_right (x ∷ xs) ys zero h = absurd (omega arith)
get_elem?-append_right (x ∷ xs) ys (suc i) h =
    ground (arith, get_elem?-append_right xs ys i (omega arith))

-- Behind the bytes written over, an array is as before.
pub get_elem?-write_over :
    (new old : Bytes) (i : ℕ) → length new ≤ i → get_elem? (write_over new old) i ≡ get_elem? old i
get_elem?-write_over new old i h =
    let e : length new + (i - length new) ≡ i = omega arith in
    get_elem?-append_right new (drop (length new) old) i h
    ∙ get_elem?-drop (length new) old (i - length new)
    ∙ ap (get_elem? old) e
