-- ===== src/Dispatcher/Position.antt =====
-- dispatcher.c: the coordinates that `environment_set_position_handler` takes.
use es_inverter.Base.{
  ℕ, ◌+◌, ◌≤◌, ◌<◌, ◌≡◌, refl, ◌⊎◌, inl, inr, arith, Bool, ◌||◌, [], Bytes, ℤ, pos, negsuc,
  pos_part, neg_part, leb, ltb_ℤ, ◌*ℤ◌, div_ℤ, Bool-cases,
}
use es_inverter.Dispatcher.Handlers.{
  ok_code, err_invalid_arg, degrees, environment_set_position_handler,
}
use es_inverter.Dispatcher.World.{environment_position_msg, Answers, World}
use es_inverter.Rs232.Memory.{done}
use es_inverter.Storage.Dump.{State, storage_set_coordinates, section_dump_request}
use es_inverter.Storage.Mapper.{type_i64}
use es_inverter.Storage.Nvs.{Nvs}
use es_inverter.Storage.Persist.{with_coordinates, storage_set_coordinates_lem}
use es_inverter.Storage.Room.{Fits, HasRoom}
use es_inverter.Update.State.{Device}

abbrev pub magnitude : ℤ → ℕ
magnitude z = pos_part z + neg_part z

times_one : (z : ℤ) → z *ℤ pos 1 ≡ z
times_one (pos n) = ground arith
times_one (negsuc n) = ground arith

abbrev latitude_refused : ℤ → Bool
latitude_refused degree = ltb_ℤ degree (negsuc 89) || ltb_ℤ (pos 90) degree

abbrev longitude_refused : ℤ → Bool
longitude_refused degree = ltb_ℤ degree (negsuc 179) || ltb_ℤ (pos 180) degree

latitude_refused_lem :
    (z : ℤ) → latitude_refused (div_ℤ (z *ℤ pos 1) 100000) ≡ leb 9100000 (magnitude z)
latitude_refused_lem (pos n) = rw (times_one (pos n)) (ground arith)
latitude_refused_lem (negsuc n) = rw (times_one (negsuc n)) (ground arith)

longitude_refused_lem :
    (z : ℤ) → longitude_refused (div_ℤ (z *ℤ pos 1) 100000) ≡ leb 18100000 (magnitude z)
longitude_refused_lem (pos n) = rw (times_one (pos n)) (ground arith)
longitude_refused_lem (negsuc n) = rw (times_one (negsuc n)) (ground arith)

or_halves : (p q r s x y : Bool) → (p || q) ≡ x → (r || s) ≡ y → (p || q || r || s) ≡ (x || y)
or_halves p q r s x y e d = ground arith

-- What the handler does: the coordinates are within and stored, or one is not and nothing changes.
abbrev pub Positioned :
    (nvs : Nvs) (crc32 : Bytes → ℕ) (dev : Device) (a : Answers)
    → World (nvs.Flash)
    → ℤ
    → ℤ
    → Type 0
Positioned nvs crc32 dev a w latitude longitude =
    ((magnitude latitude < 9100000)
      × (magnitude longitude < 18100000)
      × ((set : State (nvs.Flash)) × (storage_set_coordinates nvs crc32 w.storage latitude longitude
            ≡ done set)
          × (environment_set_position_handler nvs crc32 dev (pos 1) 100000 a
                (environment_position_msg latitude longitude) w
              ≡ done (record { code = ok_code; actions = []; world = record w { storage = set } }))
          × (set.database.device.perm.coord
              ≡ record { latitude = latitude; longitude = longitude })))
    ⊎ (((9100000 ≤ magnitude latitude) ⊎ (18100000 ≤ magnitude longitude))
        × (environment_set_position_handler nvs crc32 dev (pos 1) 100000 a
              (environment_position_msg latitude longitude) w
            ≡ done (record { code = err_invalid_arg; actions = []; world = w })))

module _ (nvs : Nvs) (crc32 : Bytes → ℕ) (room : HasRoom nvs) (dev : Device) (a : Answers) where
  open nvs use {Flash}

  refused :
      (latitude longitude : ℤ)
      → (ltb_ℤ (degrees nvs crc32 dev (pos 1) 100000 a latitude) (negsuc 89)
          || ltb_ℤ (pos 90) (degrees nvs crc32 dev (pos 1) 100000 a latitude)
          || ltb_ℤ (degrees nvs crc32 dev (pos 1) 100000 a longitude) (negsuc 179)
          || ltb_ℤ (pos 180) (degrees nvs crc32 dev (pos 1) 100000 a longitude))
        ≡ (leb 9100000 (magnitude latitude) || leb 18100000 (magnitude longitude))
  refused latitude longitude =
      or_halves (ltb_ℤ (degrees nvs crc32 dev (pos 1) 100000 a latitude) (negsuc 89))
        (ltb_ℤ (pos 90) (degrees nvs crc32 dev (pos 1) 100000 a latitude))
        (ltb_ℤ (degrees nvs crc32 dev (pos 1) 100000 a longitude) (negsuc 179))
        (ltb_ℤ (pos 180) (degrees nvs crc32 dev (pos 1) 100000 a longitude))
        (leb 9100000 (magnitude latitude)) (leb 18100000 (magnitude longitude))
        (latitude_refused_lem latitude) (longitude_refused_lem longitude)

  -- With a flash that has room, and coordinates of 64 bits in steps of 0.00001°: a latitude below
  -- 91° and a longitude below 181°, on either side, are stored and ESP_OK is returned; with any
  -- other, ESP_ERR_INVALID_ARG is returned and nothing changes.
  pub environment_set_position_handler_lem :
      (latitude longitude : ℤ) (w : World Flash)
      → Fits type_i64 latitude
      → Fits type_i64 longitude
      → Positioned nvs crc32 dev a w latitude longitude
  unfolding environment_set_position_handler section_dump_request
  environment_set_position_handler_lem latitude longitude w ha ho =
      let stored = storage_set_coordinates_lem nvs crc32 room w.storage latitude longitude ha ho in
      elim (Bool-cases (leb 9100000 (magnitude latitude) || leb 18100000 (magnitude longitude))) [
        | inl out ↦ inr (ground arith, rw (refused latitude longitude, out) refl)
        | inr within ↦ inl (
          ground arith,
          ground arith,
          (
            with_coordinates nvs crc32 room w.storage latitude longitude,
            stored,
            rw (refused latitude longitude, within, stored) refl,
            refl,
          ),
        )
      ]
