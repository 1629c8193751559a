-- ===== src/Storage/Restart.antt =====
-- storage.c: `save_database`, behind `storage_force_dump_panic` and the factory reset, and the start
-- that follows.
use es_inverter.Base.{ℕ, ◌%◌, ◌<◌, ◌≡◌, refl, ◌∙◌, arith, Bytes, pos}
use es_inverter.Rs232.Memory.{done}
use es_inverter.Storage.Data.{Database, factory_config}
use es_inverter.Storage.Dump.{
  State, storage_init, storage_set_factory_config, storage_force_dump_panic,
}
use es_inverter.Storage.Mapper.{
  NvsType, type_u32, type_i64, Key, d_crc, d_unique_id, d_c_lat, d_c_long, ds_crc, number,
}
use es_inverter.Storage.Nvs.{Nvs}
use es_inverter.Storage.Room.{Fits, HasRoom}
use es_inverter.Storage.Filled.{filled, init_fills}
use es_inverter.Storage.Written.{
  written, saved, got_crc, got_unique_id, got_latitude, got_longitude, got_ds,
}

-- The members that are kept in flash are words of their types.
pub record IsWords (db : Database) : Type 0 where
  pub checksum_word : db.device.perm.checksum < 4294967296
  pub unique_id_word : db.device.perm.unique_id < 4294967296
  pub latitude_word : Fits type_i64 db.device.perm.coord.latitude
  pub longitude_word : Fits type_i64 db.device.perm.coord.longitude
  pub ds_word : db.ds.perm.checksum < 4294967296

pub factory-IsWords : IsWords factory_config
factory-IsWords = record {
  checksum_word = omega arith;
  unique_id_word = omega arith;
  latitude_word = omega arith;
  longitude_word = omega arith;
  ds_word = omega arith;
}

module _ (nvs : Nvs) (crc32 : Bytes → ℕ) (room : HasRoom nvs) where
  open nvs use {Flash, nvs_open, nvs_get, nvs_commit, power_up}

  reopened :
      (t : NvsType) (k : Key) (size : ℕ) (flash : Flash)
      → nvs_get (nvs_open (power_up (nvs_commit flash).1)).1 t k size ≡ nvs_get flash t k size
  reopened t k size flash =
      room.get_open (power_up (nvs_commit flash).1) t k size ∙ room.get_power_up flash t k size

  -- The five rows as a start reads them.
  Holds : Database → Flash → Type 0
  Holds db flash =
      (nvs_get flash type_u32 d_crc 4 ≡ (0, number (pos db.device.perm.checksum)))
      × (nvs_get flash type_u32 d_unique_id 4 ≡ (0, number (pos db.device.perm.unique_id)))
      × (nvs_get flash type_i64 d_c_lat 8 ≡ (0, number db.device.perm.coord.latitude))
      × (nvs_get flash type_i64 d_c_long 8 ≡ (0, number db.device.perm.coord.longitude))
      × (nvs_get flash type_u32 ds_crc 4 ≡ (0, number (pos db.ds.perm.checksum)))

  written-Holds :
      (db : Database) (flash : Flash)
      → IsWords db
      → Holds db (nvs_open (power_up (nvs_commit (written nvs crc32 room db flash)).1)).1
  unfolding Holds
  written-Holds db flash h =
      let all : Flash = written nvs crc32 room db flash in
      (
        reopened type_u32 d_crc 4 all ∙ got_crc nvs crc32 room db flash h.checksum_word,
        reopened type_u32 d_unique_id 4 all
            ∙ got_unique_id nvs crc32 room db flash h.unique_id_word,
        reopened type_i64 d_c_lat 8 all ∙ got_latitude nvs crc32 room db flash h.latitude_word,
        reopened type_i64 d_c_long 8 all ∙ got_longitude nvs crc32 room db flash h.longitude_word,
        reopened type_u32 ds_crc 4 all ∙ got_ds nvs crc32 room db flash h.ds_word,
      )

  word_of : (n : ℕ) → n < 4294967296 → n % 4294967296 ≡ n
  word_of n h = omega arith

  filled-Holds :
      (db : Database) (flash : Flash)
      → IsWords db
      → Holds db flash
      → filled nvs crc32 room flash factory_config
        ≡ record factory_config { device = db.device; ds = db.ds }
  unfolding Holds
  filled-Holds db flash h (crc, unique_id, lat, long, ds) =
      rw
        (
          crc,
          unique_id,
          lat,
          long,
          ds,
          word_of db.device.perm.checksum h.checksum_word,
          word_of db.device.perm.unique_id h.unique_id_word,
          word_of db.ds.perm.checksum h.ds_word,
        )
        refl

  -- The state of a device that starts on what is left of this flash, with these members kept.
  abbrev pub Restarted : State Flash → Database → Type 0
  Restarted s db =
      (restarted : State Flash) × (storage_init nvs crc32 (record s { flash = power_up s.flash })
        ≡ done restarted)
      × (restarted.database ≡ record factory_config { device = db.device; ds = db.ds })

  pub restarted_lem :
      (s : State Flash) (db : Database)
      → IsWords db
      → Restarted
          (record s { flash = (nvs_commit (written nvs crc32 room db (nvs_open s.flash).1)).1 })
          db
  restarted_lem s db h =
      let flash : Flash =
        power_up (nvs_commit (written nvs crc32 room db (nvs_open s.flash).1)).1 in
      (
        record s {
          database = filled nvs crc32 room (nvs_open flash).1 factory_config;
          flash = (nvs_open flash).1;
        },
        init_fills nvs crc32 room (record s { flash = flash }),
        filled-Holds db (nvs_open flash).1 h (written-Holds db (nvs_open s.flash).1 h),
      )

  -- With a flash that has room, and a database that holds words: after the dump at a shutdown, a
  -- restart finds every member that is kept in flash as it was, and the measurements empty; after a
  -- factory reset it finds the factory's configuration.
  pub storage_init-save_database :
      (s : State Flash)
      → IsWords s.database
      → ((dumped : State Flash) × (storage_force_dump_panic nvs crc32 s ≡ done dumped)
          × Restarted dumped s.database)
        × ((reset : State Flash) × (storage_set_factory_config nvs crc32 s ≡ done reset)
            × Restarted reset factory_config)
  unfolding storage_set_factory_config
  storage_init-save_database s h = (
    (
      record s { flash = (nvs_commit (written nvs crc32 room s.database (nvs_open s.flash).1)).1 },
      saved nvs crc32 room s,
      restarted_lem s s.database h,
    ),
    (
      record s {
        database = factory_config;
        flash = (nvs_commit (written nvs crc32 room factory_config (nvs_open s.flash).1)).1;
      },
      saved nvs crc32 room (record s { database = factory_config }),
      restarted_lem (record s { database = factory_config }) factory_config factory-IsWords,
    ),
  )
