-- ===== src/Storage/Series.antt =====
-- storage.c: what the measurements in memory keep: the bounds of the series, their order, and the
-- current values.
use mathlib.Core.List.{append-nil}
use es_inverter.Base.{
  ℕ, suc, ◌+◌, ◌≤◌, ◌<◌, ◌≡◌, ◌≢◌, refl, sym, ap, subst, ◌∙◌, false, List, [], ◌∷◌, ◌++◌, map,
  arith, length, take, leb, ◌==◌, if◌then◌else◌, ℤ, pos, negsuc, ltb_ℤ, All, length-set,
  length-append, length-take, Bool-cases, inl, inr,
}
use es_inverter.Base.Prefixes.{take-set, take-all, take-append_full, take-append_take}
use es_inverter.Storage.Data.{Database, StorageMeter, StorageEnergy}
use es_inverter.Storage.Meters.{
  storage_meter_value, storage_set_meter_value, add_to_meter, storage_add_meter_entry,
  add_to_energy, storage_add_energy_entry, int32_max, meastype_voltage_rms, meastype_power_active,
}

-- The arrays have the lengths of the declaration, and the counters stay within them.
pub record IsMeter (m : StorageMeter) : Type 0 where
  pub meter_len : m.len ≤ 48
  pub meter_entries : length m.entries ≡ 48
  pub meter_offsets : length m.t_offset ≡ 48

pub record IsEnergy (e : StorageEnergy) : Type 0 where
  pub energy_len : e.len ≤ 96
  pub energy_entries : length e.entries ≡ 96

pub record IsDatabase (db : Database) : Type 0 where
  pub voltage : IsMeter db.meter_voltage
  pub current : IsMeter db.meter_current
  pub power : IsMeter db.meter_power
  pub energy : IsEnergy db.meter_energy

add_to_meter-IsMeter :
    (datetime value : ℤ) (m : StorageMeter) → IsMeter m → IsMeter (add_to_meter datetime value m).1
unfolding add_to_meter
add_to_meter-IsMeter datetime value m h = elim (Bool-cases (leb 48 m.len)) [
  | inl full ↦ rw full h
  | inr room ↦ rw room (record {
    meter_len = ground arith;
    meter_entries = length-set m.entries m.len value ∙ h.meter_entries;
    meter_offsets = length-set m.t_offset m.len _ ∙ h.meter_offsets;
  })
]

add_to_energy-IsEnergy :
    (datetime : ℤ) (value : ℕ) (e : StorageEnergy)
    → IsEnergy e
    → IsEnergy (add_to_energy datetime value e).1
unfolding add_to_energy
add_to_energy-IsEnergy datetime value e h = elim (Bool-cases (leb 96 e.len)) [
  | inl full ↦ rw full h
  | inr room ↦ rw room (record {
    energy_len = ground arith;
    energy_entries = length-set e.entries e.len _ ∙ h.energy_entries;
  })
]

-- Every operation on the measurements keeps the lengths of the arrays and the counters within
-- them, whatever time, type and value it is called with.
pub storage_add-IsDatabase :
    (compile_time datetime value : ℤ) (meas_type energy : ℕ) (db : Database)
    → IsDatabase db
    → IsDatabase (storage_add_meter_entry compile_time db datetime meas_type value).1
      × IsDatabase (storage_add_energy_entry compile_time db datetime energy).1
      × IsDatabase (storage_set_meter_value db datetime meas_type value).1
unfolding storage_add_meter_entry storage_add_energy_entry storage_set_meter_value
storage_add-IsDatabase compile_time datetime value meas_type energy db h =
    let v = add_to_meter-IsMeter datetime value db.meter_voltage h.voltage in
    let p = add_to_meter-IsMeter datetime value db.meter_power h.power in
    let e = add_to_energy-IsEnergy datetime energy db.meter_energy h.energy in
    (
      elim (Bool-cases (ltb_ℤ datetime compile_time)) [
        | inl early ↦ rw early h
        | inr late ↦ elim (Bool-cases (meas_type == 0)) [
          | inl is_v ↦
              rw (late, is_v)
                (record { voltage = v; current = h.current; power = h.power; energy = h.energy })
          | inr not_v ↦ elim (Bool-cases (meas_type == 2)) [
            | inl is_p ↦
                rw (late, not_v, is_p)
                  (record {
                    voltage = h.voltage;
                    current = h.current;
                    power = p;
                    energy = h.energy;
                  })
            | inr other ↦ rw (late, not_v, other) h
          ]
        ]
      ],
      elim (Bool-cases (ltb_ℤ datetime compile_time)) [
        | inl early ↦ rw early h
        | inr late ↦
            rw late
              (record { voltage = h.voltage; current = h.current; power = h.power; energy = e })
      ],
      elim (Bool-cases (meas_type == 0)) [
        | inl is_v ↦ ground arith
        | inr not_v ↦ elim (Bool-cases (meas_type == 1)) [
          | inl is_c ↦ ground arith
          | inr not_c ↦ ground arith
        ]
      ],
    )

-- The current value of a meter is read back with its time once it is set; reads of the other types
-- are not affected. For an unknown type nothing is stored, -1 is returned, and a read returns
-- INT32_MAX and leaves the time as it was.
pub storage_meter_value-storage_set_meter_value :
    (db : Database) (datetime value timestamp : ℤ) (meas_type other : ℕ)
    → other ≢ meas_type
    → let (res, after) = storage_set_meter_value db datetime meas_type value in
      (res ≡ (if leb meas_type 2 then pos 0 else negsuc 0))
      × (storage_meter_value after meas_type timestamp
          ≡ (if leb meas_type 2 then (value, datetime) else (int32_max, timestamp)))
      × (storage_meter_value after other timestamp ≡ storage_meter_value db other timestamp)
unfolding storage_meter_value storage_set_meter_value
storage_meter_value-storage_set_meter_value db datetime value timestamp meas_type other ne =
    (ground arith, ground arith, ground arith)

-- The entries of a series that count.
abbrev pub stored : StorageMeter → List ℤ
stored m = take m.len m.entries

stored-add_to_meter :
    (datetime value : ℤ) (m : StorageMeter)
    → IsMeter m
    → stored (add_to_meter datetime value m).1 ≡ take 48 (stored m ++ value ∷ [])
unfolding add_to_meter
stored-add_to_meter datetime value m h = elim (Bool-cases (leb 48 m.len)) [
  | inl full ↦
      let reached : 48 ≤ m.len = ground arith in
      let size : length (stored m) ≡ 48 =
        omega (arith, length-take m.len m.entries, h.meter_len, h.meter_entries) in
      rw full (sym (take-append_full 48 (stored m) (value ∷ []) size))
  | inr room ↦
      let less : m.len < 48 = ground arith in
      let next : m.len + 1 ≡ suc m.len = omega arith in
      rw (room, next)
        (take-set m.entries m.len value (omega (arith, h.meter_entries))
          ∙ sym (
              take-all 48 (stored m ++ value ∷ []) (
                omega (arith, length-append (stored m) (value ∷ []), length-take m.len m.entries))))
]

-- A series of entries, added one after the other to the meter of a type.
abbrev pub add_series : ℤ → ℕ → List (ℤ × ℤ) → Database → Database
add_series compile_time meas_type [] db = db
add_series compile_time meas_type ((datetime, value) ∷ rest) db =
    add_series compile_time meas_type rest
      (storage_add_meter_entry compile_time db datetime meas_type value).1

-- The times are not before the time of the build.
abbrev pub IsTimely : ℤ → List (ℤ × ℤ) → Type 0
IsTimely compile_time = All (λ e. ltb_ℤ e.0 compile_time ≡ false)

meter_added :
    (compile_time datetime value : ℤ) (db : Database)
    → ltb_ℤ datetime compile_time ≡ false
    → ((storage_add_meter_entry compile_time db datetime meastype_voltage_rms value).1.meter_voltage
        ≡ (add_to_meter datetime value db.meter_voltage).1)
      × ((storage_add_meter_entry compile_time db datetime meastype_power_active
            value).1.meter_power
          ≡ (add_to_meter datetime value db.meter_power).1)
unfolding storage_add_meter_entry
meter_added compile_time datetime value db h = rw h (refl, refl)

voltage_series :
    (compile_time : ℤ) (es : List (ℤ × ℤ)) (db : Database)
    → IsTimely compile_time es
    → IsMeter db.meter_voltage
    → stored (add_series compile_time meastype_voltage_rms es db).meter_voltage
      ≡ take 48 (stored db.meter_voltage ++ map (λ e. e.1) es)
voltage_series compile_time [] db h m = sym (
    ap (take 48) (append-nil _)
    ∙ take-all 48 (stored db.meter_voltage)
        (omega (arith, length-take db.meter_voltage.len db.meter_voltage.entries, m.meter_len)))
voltage_series compile_time ((t, v) ∷ es) db h m =
    let before : StorageMeter = db.meter_voltage in
    let e = (meter_added compile_time t v db h.0).0 in
    voltage_series compile_time es (storage_add_meter_entry compile_time db t 0 v).1 h.1
      (subst IsMeter (sym e) (add_to_meter-IsMeter t v before m))
    ∙ ap (λ (k : StorageMeter). take 48 (stored k ++ map (λ e'. e'.1) es)) e
    ∙ ap (λ (k : List ℤ). take 48 (k ++ map (λ e'. e'.1) es)) (stored-add_to_meter t v before m)
    ∙ take-append_take 48 (stored before) (v ∷ []) (map (λ e'. e'.1) es)

power_series :
    (compile_time : ℤ) (es : List (ℤ × ℤ)) (db : Database)
    → IsTimely compile_time es
    → IsMeter db.meter_power
    → stored (add_series compile_time meastype_power_active es db).meter_power
      ≡ take 48 (stored db.meter_power ++ map (λ e. e.1) es)
power_series compile_time [] db h m = sym (
    ap (take 48) (append-nil _)
    ∙ take-all 48 (stored db.meter_power)
        (omega (arith, length-take db.meter_power.len db.meter_power.entries, m.meter_len)))
power_series compile_time ((t, v) ∷ es) db h m =
    let before : StorageMeter = db.meter_power in
    let e = (meter_added compile_time t v db h.0).1 in
    power_series compile_time es (storage_add_meter_entry compile_time db t 2 v).1 h.1
      (subst IsMeter (sym e) (add_to_meter-IsMeter t v before m))
    ∙ ap (λ (k : StorageMeter). take 48 (stored k ++ map (λ e'. e'.1) es)) e
    ∙ ap (λ (k : List ℤ). take 48 (k ++ map (λ e'. e'.1) es)) (stored-add_to_meter t v before m)
    ∙ take-append_take 48 (stored before) (v ∷ []) (map (λ e'. e'.1) es)

-- Whatever entries are added to the voltage or the power meter, none of them timed before the
-- build, the meter's series is what was there and then the values in their order, cut to the first 48: entries
-- that come when it is full are dropped.
pub storage_add_meter_entry-stored :
    (compile_time : ℤ) (es : List (ℤ × ℤ)) (db : Database)
    → IsTimely compile_time es
    → IsDatabase db
    → (stored (add_series compile_time meastype_voltage_rms es db).meter_voltage
        ≡ take 48 (stored db.meter_voltage ++ map (λ e. e.1) es))
      × (stored (add_series compile_time meastype_power_active es db).meter_power
          ≡ take 48 (stored db.meter_power ++ map (λ e. e.1) es))
storage_add_meter_entry-stored compile_time es db h d =
    (voltage_series compile_time es db h d.voltage, power_series compile_time es db h d.power)
