-- ===== src/Dispatcher/Saved.antt =====
-- storage.c: what the setters that the messages reach leave alone.
use es_inverter.Base.{ℕ, ◌≡◌, refl, ◌∙◌, ap, inl, inr, arith, Bytes, ℤ}
use es_inverter.Rs232.Memory.{done, Outcome-cases}
use es_inverter.Storage.Data.{Database, StorageDevice}
use es_inverter.Storage.Dump.{
  State, storage_save_db_entry, storage_set_device_unique_id, storage_set_coordinates,
  section_dump_request, set_longitude, set_latitude,
}
use es_inverter.Storage.Mapper.{
  Field, device_checksum, device_unique_id, device_latitude, device_longitude, ds_checksum,
  find_entry_db_idx,
}
use es_inverter.Storage.Nvs.{Nvs, process_db_entry}

-- The measurements, the checksums and the callbacks of the storage.
pub record IsKept {F : Type 0} (s t : State F) : Type 0 where
  pub voltage : t.database.meter_voltage ≡ s.database.meter_voltage
  pub current : t.database.meter_current ≡ s.database.meter_current
  pub power : t.database.meter_power ≡ s.database.meter_power
  pub energy : t.database.meter_energy ≡ s.database.meter_energy
  pub datasets : t.database.ds ≡ s.database.ds
  pub checksum : t.database.device.perm.checksum ≡ s.database.device.perm.checksum
  pub callbacks : t.storage_slist ≡ s.storage_slist

pub IsKept-trans : {F : Type 0} {s t u : State F} → IsKept s t → IsKept t u → IsKept s u
IsKept-trans h k = record {
  voltage = k.voltage ∙ h.voltage;
  current = k.current ∙ h.current;
  power = k.power ∙ h.power;
  energy = k.energy ∙ h.energy;
  datasets = k.datasets ∙ h.datasets;
  checksum = k.checksum ∙ h.checksum;
  callbacks = k.callbacks ∙ h.callbacks;
}

module _ (nvs : Nvs) (crc32 : Bytes → ℕ) where
  open nvs use {Flash}

  save_kept :
      (s : State Flash) (field : Field) {t : State Flash}
      → storage_save_db_entry nvs crc32 s field ≡ done t
      → (t.database ≡ s.database) × (t.storage_slist ≡ s.storage_slist)
  unfolding storage_save_db_entry process_db_entry find_entry_db_idx section_dump_request
  save_kept s device_checksum {t} e = ground arith
  save_kept s device_unique_id {t} e = ground arith
  save_kept s device_latitude {t} e = ground arith
  save_kept s device_longitude {t} e = ground arith
  save_kept s ds_checksum {t} e = ground arith

  pub IsKept-refl : (s : State Flash) → IsKept s s
  IsKept-refl s = record {
    voltage = refl;
    current = refl;
    power = refl;
    energy = refl;
    datasets = refl;
    checksum = refl;
    callbacks = refl;
  }

  device-IsKept :
      (s : State Flash) (d : StorageDevice)
      → d.perm.checksum ≡ s.database.device.perm.checksum
      → IsKept s (record s { database = record (s.database) { device = d } })
  device-IsKept s d same = record {
    voltage = refl;
    current = refl;
    power = refl;
    energy = refl;
    datasets = refl;
    checksum = same;
    callbacks = refl;
  }

  saved-IsKept :
      (s mid : State Flash) (field : Field) {t : State Flash}
      → storage_save_db_entry nvs crc32 mid field ≡ done t
      → IsKept s mid
      → IsKept s t
  saved-IsKept s mid field {t} e k =
      let (same, calls) = save_kept mid field {t = t} e in
      record {
        voltage = ap (λ (d : Database). d.meter_voltage) same ∙ k.voltage;
        current = ap (λ (d : Database). d.meter_current) same ∙ k.current;
        power = ap (λ (d : Database). d.meter_power) same ∙ k.power;
        energy = ap (λ (d : Database). d.meter_energy) same ∙ k.energy;
        datasets = ap (λ (d : Database). d.ds) same ∙ k.datasets;
        checksum = ap (λ (d : Database). d.device.perm.checksum) same ∙ k.checksum;
        callbacks = calls ∙ k.callbacks;
      }

  pub set_id-IsKept :
      (s : State Flash) (u : ℕ) {t : State Flash}
      → storage_set_device_unique_id nvs crc32 s u ≡ done t
      → IsKept s t
  unfolding storage_set_device_unique_id
  set_id-IsKept s u {t} e =
      let db : Database = record (s.database) {
        device = record { perm = record (s.database.device.perm) { unique_id = u } };
      } in
      saved-IsKept s (record s { database = db }) device_unique_id {t = t} e
        (device-IsKept s db.device refl)

  pub set_coordinates-IsKept :
      (s : State Flash) (lat long : ℤ) {t : State Flash}
      → storage_set_coordinates nvs crc32 s lat long ≡ done t
      → IsKept s t
  unfolding storage_set_coordinates
  set_coordinates-IsKept s lat long {t} e =
      let s1 : State Flash = record s { database = set_longitude nvs crc32 long s.database } in
      elim (Outcome-cases (storage_save_db_entry nvs crc32 s1 device_longitude)) [
        | inl f ↦ absurd (ground arith)
        | inr (first, q) ↦
            let k : IsKept s first =
              saved-IsKept s s1 device_longitude {t = first} q
                (device-IsKept s s1.database.device refl) in
            let s2 : State Flash = record first {
              database = set_latitude nvs crc32 lat first.database;
            } in
            let second : storage_save_db_entry nvs crc32 s2 device_latitude ≡ done t =
              ground arith in
            saved-IsKept s s2 device_latitude {t = t} second (record {
              voltage = k.voltage;
              current = k.current;
              power = k.power;
              energy = k.energy;
              datasets = k.datasets;
              checksum = k.checksum;
              callbacks = k.callbacks;
            })
      ]
