-- ===== src/Storage/Data.antt =====
-- storage.h: the database. A `time_t` is an integer, as are the signed words.
use es_inverter.Base.{ℕ, ◌*◌, List, ℤ, pos, replicate}

pub record Coordinates : Type 0 where
  pub latitude : ℤ
  pub longitude : ℤ

pub record FlashDevice : Type 0 where
  pub checksum : ℕ
  pub unique_id : ℕ
  pub coord : Coordinates

pub record FlashDs : Type 0 where
  pub checksum : ℕ

pub record StorageDatasets : Type 0 where
  pub perm : FlashDs

pub record StorageMeter : Type 0 where
  pub len : ℕ
  pub current_val : ℤ
  pub current_val_time : ℤ
  pub ref_timestamp : ℤ
  pub entries : List ℤ
  pub t_offset : List ℕ

pub record StorageEnergy : Type 0 where
  pub len : ℕ
  pub meas_type : ℕ
  pub ref_timestamp : ℤ
  pub ref_energy : ℕ
  pub interval : ℕ
  pub entries : List ℕ

pub record StorageDevice : Type 0 where
  pub perm : FlashDevice

pub record Database : Type 0 where
  pub device : StorageDevice
  pub meter_voltage : StorageMeter
  pub meter_current : StorageMeter
  pub meter_power : StorageMeter
  pub meter_energy : StorageEnergy
  pub ds : StorageDatasets

abbrev pub max_meter_entries : ℕ
max_meter_entries = 48

abbrev pub max_energy_entries : ℕ
max_energy_entries = 4 * 24

abbrev pub empty_meter : StorageMeter
empty_meter = record {
  len = 0;
  current_val = pos 0;
  current_val_time = pos 0;
  ref_timestamp = pos 0;
  entries = replicate max_meter_entries (pos 0);
  t_offset = replicate max_meter_entries 0;
}

abbrev pub empty_energy : StorageEnergy
empty_energy = record {
  len = 0;
  meas_type = 0;
  ref_timestamp = pos 0;
  ref_energy = 0;
  interval = 0;
  entries = replicate max_energy_entries 0;
}

-- The members that the initialiser leaves out are zero.
abbrev pub factory_config : Database
factory_config = record {
  device = record {
    perm = record {
      checksum = 0;
      unique_id = 0;
      coord = record { latitude = pos 5222970; longitude = pos 2101220 };
    };
  };
  meter_voltage = empty_meter;
  meter_current = empty_meter;
  meter_power = empty_meter;
  meter_energy = empty_energy;
  ds = record { perm = record { checksum = 0 } };
}
