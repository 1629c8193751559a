-- ===== src/Inverter/Energy.antt =====
-- inverter.c: the energy of the battery against the power and the time of each interval.
use es_inverter.Base.{
  ℕ, zero, suc, ◌+◌, ◌-◌, ◌%◌, ◌<◌, ◌≤◌, ◌≡◌, refl, ap, ◌∙◌, inl, inr, arith, true, false, List, [],
  ◌∷◌, Bool-cases, All, ℤ, pos, negsuc, ◌-ℤ◌, ◌*ℤ◌, ltb_ℤ, is_zero, to_word, leb, sub_ℕ,
}
use es_inverter.Inverter.Meas.{
  BatteryMeas, EnergyMeas, inv_set_meas_battery, add_battery, plus_word, minus_word,
}

-- The balance of the battery as a 64-bit word: what was charged before and is counted, less what was
-- discharged.
abbrev pub balance : ℕ → ℕ → EnergyMeas → ℕ
balance charged discharged e =
    to_word 18446744073709551616
      (pos (charged + e.battery_charge) -ℤ pos (discharged + e.battery_discharge))

-- A difference, as a word.
word_difference :
    (a b : ℕ)
    → to_word 18446744073709551616 (sub_ℕ a b)
      ≡ (a + (18446744073709551616 - b % 18446744073709551616)) % 18446744073709551616
word_difference a b = elim (Bool-cases (leb b a)) [
  | inl le ↦ let h : b ≤ a = ground arith in rw le (omega arith)
  | inr gt ↦ let h : a < b = ground arith in rw gt (omega arith)
]

pub add_battery-balance :
    (a b : ℕ) (delta : ℤ) (e : EnergyMeas)
    → balance a b (add_battery delta e) ≡ plus_word (balance a b e) delta
unfolding add_battery
add_battery-balance a b (pos zero) e =
    let c : ℕ = e.battery_charge in
    let d : ℕ = e.battery_discharge in
    let d' : ℕ = minus_word d (pos 0) in
    omega (
      arith,
      word_difference (a + c + 0) (0 + (b + d)),
      word_difference (a + c + 0) (0 + (b + d')),
      word_difference (d + 0) (0 + 0),
      word_difference (balance a b e + 0) (0 + 0),
    )
add_battery-balance a b (pos (suc n)) e =
    let c : ℕ = e.battery_charge in
    let d : ℕ = e.battery_discharge in
    let positive : ltb_ℤ (pos 0) (pos (suc n)) ≡ true = ground arith in
    let c' : ℕ = plus_word c (pos (suc n)) in
    rw positive (
      omega (
        arith,
        word_difference (a + c + 0) (0 + (b + d)),
        word_difference (a + c' + 0) (0 + (b + d)),
        word_difference (c + suc n) (0 + 0),
        word_difference (balance a b e + suc n) (0 + 0),
      ))
add_battery-balance a b (negsuc n) e =
    let c : ℕ = e.battery_charge in
    let d : ℕ = e.battery_discharge in
    let negative : ltb_ℤ (pos 0) (negsuc n) ≡ false = ground arith in
    let d' : ℕ = minus_word d (negsuc n) in
    rw negative (
      omega (
        arith,
        word_difference (a + c + 0) (0 + (b + d)),
        word_difference (a + c + 0) (0 + (b + d')),
        word_difference (d + suc n) (0 + 0),
        word_difference (balance a b e + 0) (0 + suc n),
      ))

-- Measurements of the battery: the time, the voltage and the power of each.
abbrev pub Readings : Type 0
Readings = List (ℤ × ℕ × ℤ)

abbrev pub run_battery : Readings → BatteryMeas × EnergyMeas → BatteryMeas × EnergyMeas
run_battery [] s = s
run_battery ((now, voltage, power) ∷ rest) s =
    run_battery rest (inv_set_meas_battery now voltage power s)

-- The energy of the intervals from a power at a time on, added to a word: each power counts until
-- the time of the next one.
abbrev pub energy_over : ℕ → ℤ → ℤ → Readings → ℕ
energy_over w power since [] = w
energy_over w power since ((now, voltage, next) ∷ rest) =
    energy_over (plus_word w (power *ℤ (now -ℤ since))) next now rest

-- Times other than 0, which stands for no measurement.
abbrev pub IsTimed : Readings → Type 0
IsTimed = All (λ r. is_zero r.0 ≡ false)

pub measured :
    (now power : ℤ) (voltage : ℕ) (battery : BatteryMeas) (e : EnergyMeas)
    → is_zero battery.timestamp ≡ false
    → inv_set_meas_battery now voltage power (battery, e) ≡ (
      record { timestamp = now; voltage = voltage; charge_power = power },
      add_battery (battery.charge_power *ℤ (now -ℤ battery.timestamp)) e,
    )
unfolding inv_set_meas_battery
measured now power voltage battery e h = rw h refl

-- Whatever the battery is measured at, at times other than 0 and from a measurement on, and
-- whatever was charged and discharged before: the charged energy less the discharged one is, as a
-- 64-bit word, what it was and then each power times the time until the next measurement.
pub run_battery-energy_over :
    (a b : ℕ) (readings : Readings) (battery : BatteryMeas) (e : EnergyMeas)
    → is_zero battery.timestamp ≡ false
    → IsTimed readings
    → balance a b (run_battery readings (battery, e)).1
      ≡ energy_over (balance a b e) battery.charge_power battery.timestamp readings
run_battery-energy_over a b [] battery e h timed = refl
run_battery-energy_over a b ((now, voltage, power) ∷ rest) battery e h timed =
    let delta : ℤ = battery.charge_power *ℤ (now -ℤ battery.timestamp) in
    let next : BatteryMeas = record { timestamp = now; voltage = voltage; charge_power = power } in
    ap (λ (s : BatteryMeas × EnergyMeas). balance a b (run_battery rest s).1)
      (measured now power voltage battery e h)
    ∙ run_battery-energy_over a b rest next (add_battery delta e) timed.0 timed.1
    ∙ ap (λ (w : ℕ). energy_over w power now rest) (add_battery-balance a b delta e)
