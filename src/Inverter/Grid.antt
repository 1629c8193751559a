-- ===== src/Inverter/Grid.antt =====
-- inverter.c: the energy taken from the grid and provided to it.
use es_inverter.Base.{
  ℕ, suc, ◌+◌, ◌-◌, ◌*◌, ◌/◌, ◌≡◌, refl, sym, subst, ◌∙◌, arith, false, List, [], ◌∷◌, Bool-cases,
  inl, inr, ℤ, pos, negsuc, ◌+ℤ◌, ◌-ℤ◌, ◌*ℤ◌, ltb_ℤ, is_zero,
}
use es_inverter.Inverter.Meas.{GridMeas, EnergyMeas, inv_set_meas_grid}

not_before : (a b : ℤ) → ltb_ℤ b a ≡ false → (k : ℕ) × (b -ℤ a ≡ pos k)
not_before (pos a) (pos b) h = (b + 0 - (0 + a), ground arith)
not_before (pos a) (negsuc b) h = absurd (ground arith)
not_before (negsuc a) (pos b) h = (b + suc a - (0 + 0), ground arith)
not_before (negsuc a) (negsuc b) h = (0 + suc a - (suc b + 0), ground arith)

product : (n k : ℕ) → pos n *ℤ pos k ≡ pos (n * k)
product n k = ground arith

rounded : (n : ℕ) → pos n +ℤ pos 500 ≡ pos (n + 500)
rounded n = ground arith

provided_kept :
    (now power : ℤ) (voltage freq : ℕ) (grid : GridMeas) (e : EnergyMeas)
    → ltb_ℤ now grid.timestamp ≡ false
    → (inv_set_meas_grid now voltage power freq (grid, e)).1.grid_provided ≡ e.grid_provided
unfolding inv_set_meas_grid
provided_kept now power voltage freq grid e h =
    let (k, d) = not_before grid.timestamp now h in
    let q : ℕ = (grid.power * k + 500) / 1000 in
    let positive : ltb_ℤ (pos q) (pos 0) ≡ false = ground arith in
    elim (Bool-cases (is_zero grid.timestamp)) [
      | inl first ↦ rw first refl
      | inr later ↦ rw (later, d, product grid.power k, rounded (grid.power * k), positive) refl
    ]

-- Measurements of the grid: the time, the voltage, the power and the frequency of each.
abbrev pub GridReadings : Type 0
GridReadings = List (ℤ × ℕ × ℤ × ℕ)

abbrev pub run_grid : GridReadings → GridMeas × EnergyMeas → GridMeas × EnergyMeas
run_grid [] s = s
run_grid ((now, voltage, power, freq) ∷ rest) s =
    run_grid rest (inv_set_meas_grid now voltage power freq s)

-- No measurement is before the one that it follows.
abbrev pub IsOrdered : ℤ → GridReadings → Type 0
IsOrdered since [] = Unit
IsOrdered since ((now, voltage, power, freq) ∷ rest) =
    (ltb_ℤ now since ≡ false) × IsOrdered now rest

timed :
    (now power : ℤ) (voltage freq : ℕ) (s : GridMeas × EnergyMeas)
    → (inv_set_meas_grid now voltage power freq s).0.timestamp ≡ now
unfolding inv_set_meas_grid
timed now power voltage freq (grid, e) = refl

-- However the grid is measured, in the order of time and with whatever powers, negative ones
-- included, the energy provided to it is never counted.
pub run_grid-grid_provided :
    (readings : GridReadings) (grid : GridMeas) (e : EnergyMeas)
    → IsOrdered grid.timestamp readings
    → (run_grid readings (grid, e)).1.grid_provided ≡ e.grid_provided
run_grid-grid_provided [] grid e h = refl
run_grid-grid_provided ((now, voltage, power, freq) ∷ rest) grid e h =
    let next : GridMeas × EnergyMeas = inv_set_meas_grid now voltage power freq (grid, e) in
    run_grid-grid_provided rest next.0 next.1
      (subst (λ t. IsOrdered t rest) (sym (timed now power voltage freq (grid, e))) h.1)
    ∙ provided_kept now power voltage freq grid e h.0
