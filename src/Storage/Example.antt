-- ===== src/Storage/Example.antt =====
-- A flash in memory that always has room and loses what was not committed, and a state of the storage on it.
use es_inverter.Base.{
  ℕ, ◌≡◌, ◌≢◌, refl, Bool, true, false, [], ◌∷◌, Option, none, some, Bytes, length, if◌then◌else◌,
  pos, negsuc, ℤ, ◌<◌, ltb, arith, Bool-cases, inl, inr,
}
use es_inverter.Storage.Data.{factory_config}
use es_inverter.Storage.Dump.{State}
use es_inverter.Storage.First.{IsTyped}
use es_inverter.Storage.Mapper.{
  NvsType, type_u32, type_i64, Key, d_crc, d_unique_id, d_c_lat, d_c_long, ds_crc, Cell, number,
  text,
}
use es_inverter.Storage.Nvs.{Nvs}
use es_inverter.Storage.Room.{Fits, HasRoom}

abbrev pub same_key : Key → Key → Bool
same_key d_crc d_crc = true
same_key d_unique_id d_unique_id = true
same_key d_c_lat d_c_lat = true
same_key d_c_long d_c_long = true
same_key ds_crc ds_crc = true
same_key _ _ = false

-- A cell holds a number of the type.
abbrev pub fits : NvsType → Cell → Bool
fits type_u32 (number (pos n)) = ltb n 4294967296
fits type_i64 (number (pos n)) = ltb n 9223372036854775808
fits type_i64 (number (negsuc n)) = ltb n 9223372036854775808
fits _ _ = false

abbrev pub cell_as : NvsType → Option Cell → ℕ × Cell
cell_as t none = (0x1102, number (pos 0))
cell_as t (some c) = if fits t c then (0, c) else (0x1103, number (pos 0))

-- The values that are got, and those that were committed.
abbrev pub Memory : Type 0
Memory = (Key → Option Cell) × (Key → Option Cell)

abbrev pub memory : Nvs
memory = record {
  Flash = Memory;
  nvs_open = λ f. (0, f);
  nvs_set = λ f t k c. (0, (λ other. if same_key k other then some c else f.0 other, f.1));
  nvs_get = λ f t k size. cell_as t (f.0 k);
  nvs_erase_key = λ f k. (0, (λ other. if same_key k other then none else f.0 other, f.1));
  nvs_commit = λ f. (0, (f.0, f.0));
  power_up = λ f. (f.1, f.1);
}

Fits-fits : (t : NvsType) (v : ℤ) → Fits t v → fits t (number v) ≡ true
Fits-fits type_u32 (pos n) h = ground arith
Fits-fits type_i64 (pos n) h = ground arith
Fits-fits type_i64 (negsuc n) h = ground arith
Fits-fits _ _ h = absurd h

same_key_refl : (k : Key) → same_key k k ≡ true
same_key_refl d_crc = refl
same_key_refl _ = refl

same_key-other : (k other : Key) → k ≢ other → same_key k other ≡ false
same_key-other d_crc d_crc h = absurd (h refl)
same_key-other d_unique_id d_unique_id h = absurd (h refl)
same_key-other d_c_lat d_c_lat h = absurd (h refl)
same_key-other d_c_long d_c_long h = absurd (h refl)
same_key-other ds_crc ds_crc h = absurd (h refl)
same_key-other _ _ h = refl

pub memory-HasRoom : HasRoom memory
memory-HasRoom = record {
  open_ok = λ f. refl;
  get_open = λ f t k size. refl;
  commit_ok = λ f. refl;
  get_commit = λ f t k size. refl;
  set_ok = λ f t k v h. refl;
  get_set = λ f t k v size h. rw (memory, same_key_refl k, Fits-fits t v h) refl;
  get_other = λ f t u k other c size h. rw (memory, same_key-other k other h) refl;
  get_power_up = λ f t k size. refl;
}

as_u32 :
    (c : Option Cell)
    → (cell_as type_u32 c).0 ≡ 0
    → (n : ℕ) × (n < 4294967296) × ((cell_as type_u32 c).1 ≡ number (pos n))
as_u32 none e = absurd (omega arith)
as_u32 (some (text s)) e = absurd (omega arith)
as_u32 (some (number (negsuc n))) e = absurd (omega arith)
as_u32 (some (number (pos n))) e = elim (Bool-cases (ltb n 4294967296)) [
  | inl small ↦ (n, ground arith, rw small refl)
  | inr large ↦ absurd (ground arith)
]

as_i64 :
    (c : Option Cell)
    → (cell_as type_i64 c).0 ≡ 0
    → (z : ℤ) × Fits type_i64 z × ((cell_as type_i64 c).1 ≡ number z)
as_i64 none e = absurd (omega arith)
as_i64 (some (text s)) e = absurd (omega arith)
as_i64 (some (number (pos n))) e = elim (Bool-cases (ltb n 9223372036854775808)) [
  | inl small ↦ (pos n, ground arith, rw small refl)
  | inr large ↦ absurd (ground arith)
]
as_i64 (some (number (negsuc n))) e = elim (Bool-cases (ltb n 9223372036854775808)) [
  | inl small ↦ (negsuc n, ground arith, rw small refl)
  | inr large ↦ absurd (ground arith)
]

pub memory-IsTyped : IsTyped memory
memory-IsTyped = record {
  got_u32 = λ f k size. as_u32 (f.0 k);
  got_i64 = λ f k size. as_i64 (f.0 k);
}

abbrev pub start : State Memory
start = record {
  database = factory_config;
  dump_request = 2;
  storage_slist = 100 ∷ 200 ∷ [];
  dump_scheduled = true;
  flash = (λ k. none, λ k. none);
}

-- A checksum that only counts.
abbrev pub sum : Bytes → ℕ
sum bytes = length bytes
