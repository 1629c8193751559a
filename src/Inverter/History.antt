-- ===== src/Inverter/History.antt =====
-- inverter.c: the history of the energies stays within its arrays, and what goes into it.
use es_inverter.Base.{
  ℕ, suc, ◌<◌, ◌≡◌, ◌≢◌, refl, ◌∙◌, ◌⊎◌, inl, inr, arith, true, false, some, length, length-set,
  get_elem?, ◌==◌, leb, ℤ, Bool-cases,
}
use es_inverter.Base.Prefixes.{get_elem?-set}
use es_inverter.Inverter.Meas.{EnergyMeas}
use es_inverter.Inverter.State.{EnergyHistory}
use es_inverter.Inverter.Store.{
  no_energy, referenced, too_little, writes_inside, with_entry, store_entry, inv_store_energy_meas,
}
use es_inverter.Rs232.Memory.{done}

-- The arrays have the same length, and there is room for an entry.
pub record IsHistory (cap : ℕ) (h : EnergyHistory) : Type 0 where
  pub size_room : h.size < cap
  pub grid_cap : length h.grid ≡ cap
  pub ac_output_cap : length h.ac_output ≡ cap
  pub pv_cap : length h.pv ≡ cap
  pub charge_cap : length h.battery_charge ≡ cap
  pub discharge_cap : length h.battery_discharge ≡ cap
  pub offset_cap : length h.time_offset ≡ cap

-- The entry of an index, of the energies that are kept.
abbrev pub IsEntry : EnergyHistory → ℕ → EnergyMeas → Type 0
IsEntry h i e =
    (get_elem? h.grid i ≡ some e.grid_consumed)
    × (get_elem? h.ac_output i ≡ some e.ac_output)
    × (get_elem? h.pv i ≡ some e.pv)
    × (get_elem? h.battery_charge i ≡ some e.battery_charge)
    × (get_elem? h.battery_discharge i ≡ some e.battery_discharge)

-- An entry was stored behind those that were there, and the next one follows it or starts anew.
abbrev pub IsStored : ℕ → EnergyMeas → EnergyHistory → EnergyMeas → EnergyHistory → Type 0
IsStored cap e h after longer =
    (after ≡ no_energy)
    × IsEntry longer h.size e
    × (((suc h.size < cap) × (longer.size ≡ suc h.size)) ⊎ ((suc h.size ≡ cap) × (longer.size ≡ 0)))

pub referenced-IsHistory :
    (cap : ℕ) (now : ℤ) (e : EnergyMeas) (h : EnergyHistory)
    → IsHistory cap h
    → IsHistory cap (referenced now e h)
referenced-IsHistory cap now e h k = record {
  size_room = k.size_room;
  grid_cap = k.grid_cap;
  ac_output_cap = k.ac_output_cap;
  pv_cap = k.pv_cap;
  charge_cap = k.charge_cap;
  discharge_cap = k.discharge_cap;
  offset_cap = k.offset_cap;
}

pub inside : (cap : ℕ) (h : EnergyHistory) → IsHistory cap h → writes_inside h h.size ≡ true
inside cap h k =
    let room = k.size_room in
    let a = k.grid_cap in
    let b = k.ac_output_cap in
    let c = k.pv_cap in
    let d = k.charge_cap in let e = k.discharge_cap in let f = k.offset_cap in ground arith

pub with_entry-caps :
    (cap : ℕ) (now : ℤ) (e : EnergyMeas) (h : EnergyHistory) (n : ℕ)
    → IsHistory cap h
    → n < cap
    → IsHistory cap (record (with_entry now e h) { size = n })
with_entry-caps cap now e h n k room = record {
  size_room = room;
  grid_cap = length-set h.grid h.size _ ∙ k.grid_cap;
  ac_output_cap = length-set h.ac_output h.size _ ∙ k.ac_output_cap;
  pv_cap = length-set h.pv h.size _ ∙ k.pv_cap;
  charge_cap = length-set h.battery_charge h.size _ ∙ k.charge_cap;
  discharge_cap = length-set h.battery_discharge h.size _ ∙ k.discharge_cap;
  offset_cap = length-set h.time_offset h.size _ ∙ k.offset_cap;
}

with_entry-IsEntry :
    (cap : ℕ) (now : ℤ) (e : EnergyMeas) (h : EnergyHistory) (n : ℕ)
    → IsHistory cap h
    → IsEntry (record (with_entry now e h) { size = n }) h.size e
with_entry-IsEntry cap now e h n k =
    let room = k.size_room in
    let a = k.grid_cap in
    let b = k.ac_output_cap in
    let c = k.pv_cap in
    let d = k.charge_cap in
    let f = k.discharge_cap in
    (
      get_elem?-set h.grid h.size e.grid_consumed (omega arith),
      get_elem?-set h.ac_output h.size e.ac_output (omega arith),
      get_elem?-set h.pv h.size e.pv (omega arith),
      get_elem?-set h.battery_charge h.size e.battery_charge (omega arith),
      get_elem?-set h.battery_discharge h.size e.battery_discharge (omega arith),
    )

store_entry_lem :
    (cap : ℕ) (now : ℤ) (e : EnergyMeas) (h : EnergyHistory)
    → IsHistory cap h
    → (after : EnergyMeas) × (longer : EnergyHistory) × (store_entry now e h ≡ done (after, longer))
      × IsHistory cap longer
      × IsStored cap e h after longer
unfolding store_entry
store_entry_lem cap now e h k =
    let room = k.size_room in
    let size : length (with_entry now e h).time_offset ≡ cap =
      length-set h.time_offset h.size _ ∙ k.offset_cap in
    elim (Bool-cases (leb cap (suc h.size))) [
      | inl full ↦ (
        no_energy,
        record (with_entry now e h) { size = 0 },
        rw (inside cap h k, size, full) refl,
        with_entry-caps cap now e h 0 k (omega arith),
        (refl, with_entry-IsEntry cap now e h 0 k, inr (ground arith, refl)),
      )
      | inr more ↦
          let next : suc h.size < cap = ground arith in
          (
            no_energy,
            with_entry now e h,
            rw (inside cap h k, size, more) refl,
            with_entry-caps cap now e h (suc h.size) k next,
            (refl, with_entry-IsEntry cap now e h (suc h.size) k, inl (next, refl)),
          )
    ]

-- Energies that are all below 250 Wh behind an entry.
abbrev pub IsLittle : EnergyMeas → Type 0
IsLittle e =
    (e.grid_consumed < 900000)
    × (e.ac_output < 900000)
    × (e.pv < 900000)
    × (e.battery_charge < 900000)
    × (e.battery_discharge < 900000)

little_lem : (e : EnergyMeas) → IsLittle e → too_little e ≡ false → ⊥
little_lem e l h = ground arith

-- On arrays of one length and with room for an entry, a call makes no access out of bounds and
-- leaves room. Behind an entry, energies that are all below 250 Wh are left to grow, and nothing
-- changes. Otherwise the energies but for the one provided to the grid are stored at the size, all
-- six are cleared, and a full history starts anew.
pub inv_store_energy_meas_lem :
    (cap : ℕ) (now : ℤ) (e : EnergyMeas) (h : EnergyHistory)
    → IsHistory cap h
    → (after : EnergyMeas) × (longer : EnergyHistory) × (inv_store_energy_meas now (e, h)
        ≡ done (after, longer))
      × IsHistory cap longer
      × (((h.size ≢ 0) × IsLittle e × (after ≡ e) × (longer ≡ h))
          ⊎ (((h.size ≡ 0) ⊎ (¬ IsLittle e)) × IsStored cap e h after longer))
unfolding inv_store_energy_meas
inv_store_energy_meas_lem cap now e h k = elim (Bool-cases (h.size == 0)) [
  | inl empty ↦
      let first : IsHistory cap (referenced now e h) = referenced-IsHistory cap now e h k in
      let (after, longer, p, q, r) = store_entry_lem cap now e (referenced now e h) first in
      (after, longer, rw empty p, q, inr (inl (ground arith), r))
  | inr filled ↦ elim (Bool-cases (too_little e)) [
    | inl little ↦ (e, h, rw (filled, little) refl, k, inl (ground arith, ground arith, refl, refl))
    | inr enough ↦
        let (after, longer, p, q, r) = store_entry_lem cap now e h k in
        (after, longer, rw (filled, enough) p, q, inr (inr (λ l. little_lem e l enough), r))
  ]
]
