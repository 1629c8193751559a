-- ===== src/Inverter/Ledger.antt =====
-- inverter.c: the energy of the battery in the history and in what is not yet stored.
use native.Mathlib.Nat.{add-zero}
use es_inverter.Base.{
  ℕ, suc, ◌+◌, ◌<◌, ◌≤◌, ◌≡◌, refl, ◌∙◌, ap, inl, inr, arith, false, List, [], ◌∷◌, ◌++◌, length,
  to_word, take, set, leb, ◌==◌, ℤ, pos, ◌-ℤ◌, Bool-cases, length-set,
}
use es_inverter.Base.Prefixes.{take-set}
use es_inverter.Inverter.Energy.{balance}
use es_inverter.Inverter.History.{IsHistory, referenced-IsHistory, inside, with_entry-caps}
use es_inverter.Inverter.Meas.{EnergyMeas}
use es_inverter.Inverter.State.{EnergyHistory}
use es_inverter.Inverter.Store.{
  no_energy, referenced, too_little, with_entry, store_entry, inv_store_energy_meas,
}
use es_inverter.Rs232.Memory.{done}

abbrev pub sum : List ℕ → ℕ
sum [] = 0
sum (x ∷ xs) = x + sum xs

sum-append : (xs : List ℕ) (v : ℕ) → sum (xs ++ v ∷ []) ≡ sum xs + v
sum-append [] v = omega arith
sum-append (x ∷ xs) v = let ih = sum-append xs v in omega arith

-- The balance of the battery in the entries of the history and in what is not yet stored.
abbrev pub total : EnergyMeas → EnergyHistory → ℕ
total e h = balance (sum (take h.size h.battery_charge)) (sum (take h.size h.battery_discharge)) e

sum-set :
    (xs : List ℕ) (n v : ℕ) → n < length xs → sum (take (suc n) (set xs n v)) ≡ sum (take n xs) + v
sum-set xs n v h = ap sum (take-set xs n v h) ∙ sum-append (take n xs) v

-- Energies that sum up the same have the same balance.
pub same_balance :
    (charged discharged charged' discharged' : ℕ) (e f : EnergyMeas)
    → charged + e.battery_charge ≡ charged' + f.battery_charge
    → discharged + e.battery_discharge ≡ discharged' + f.battery_discharge
    → balance charged discharged e ≡ balance charged' discharged' f
same_balance charged discharged charged' discharged' e f p q =
    ap (λ (x : ℕ). to_word 18446744073709551616 (pos x -ℤ pos (discharged + e.battery_discharge))) p
    ∙ ap (λ (y : ℕ). to_word 18446744073709551616 (pos (charged' + f.battery_charge) -ℤ pos y)) q

with_entry-total :
    (cap : ℕ) (now : ℤ) (e : EnergyMeas) (h : EnergyHistory)
    → IsHistory cap h
    → total no_energy (with_entry now e h) ≡ total e h
with_entry-total cap now e h k =
    let room = k.size_room in
    let charge = k.charge_cap in
    let discharge = k.discharge_cap in
    same_balance _ _ _ _ no_energy e
      (add-zero _ ∙ sum-set h.battery_charge h.size e.battery_charge (omega arith))
      (add-zero _ ∙ sum-set h.battery_discharge h.size e.battery_discharge (omega arith))

-- What a call that finds room for two entries leaves: nothing is lost or counted twice.
abbrev pub Keeps : ℕ → ℤ → EnergyMeas → EnergyHistory → Type 0
Keeps cap now e h =
    (after : EnergyMeas) × (longer : EnergyHistory) × (inv_store_energy_meas now (e, h)
      ≡ done (after, longer))
    × IsHistory cap longer
    × (longer.size ≤ suc h.size)
    × (total after longer ≡ total e h)

stored :
    (cap : ℕ) (now : ℤ) (e : EnergyMeas) (h : EnergyHistory)
    → IsHistory cap h
    → suc h.size < cap
    → store_entry now e h ≡ done (no_energy, with_entry now e h)
unfolding store_entry
stored cap now e h k more =
    let size : length (with_entry now e h).time_offset ≡ cap =
      length-set h.time_offset h.size _ ∙ k.offset_cap in
    let fits : leb cap (suc h.size) ≡ false = ground arith in rw (inside cap h k, size, fits) refl

pub store-Keeps :
    (cap : ℕ) (now : ℤ) (e : EnergyMeas) (h : EnergyHistory)
    → IsHistory cap h
    → suc h.size < cap
    → Keeps cap now e h
unfolding inv_store_energy_meas
store-Keeps cap now e h k more = elim (Bool-cases (h.size == 0)) [
  | inl empty ↦
      let first : IsHistory cap (referenced now e h) = referenced-IsHistory cap now e h k in
      (
        no_energy,
        with_entry now e (referenced now e h),
        rw empty (stored cap now e (referenced now e h) first more),
        with_entry-caps cap now e (referenced now e h) (suc h.size) first more,
        omega arith,
        with_entry-total cap now e (referenced now e h) first,
      )
  | inr filled ↦ elim (Bool-cases (too_little e)) [
    | inl little ↦ (e, h, rw (filled, little) refl, k, omega arith, refl)
    | inr enough ↦ (
      no_energy,
      with_entry now e h,
      rw (filled, enough) (stored cap now e h k more),
      with_entry-caps cap now e h (suc h.size) k more,
      omega arith,
      with_entry-total cap now e h k,
    )
  ]
]
