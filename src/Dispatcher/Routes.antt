-- ===== src/Dispatcher/Routes.antt =====
-- dispatcher.c: which handler a message reaches.
use es_inverter.Base.{
  ℕ, zero, suc, ◌≡◌, ◌≢◌, refl, arith, true, false, List, [], ◌∷◌, map, some, Bytes, All,
  All-get_elem?, get_elem?, ◌==◌, ℤ,
}
use es_inverter.Dispatcher.Handlers.{err_not_supported}
use es_inverter.Dispatcher.Table.{Handler, mapper, dispatch_from, dispatcher_handler}
use es_inverter.Dispatcher.World.{Payload, Answers, World}
use es_inverter.Rs232.Memory.{done}
use es_inverter.Storage.Nvs.{Nvs}
use es_inverter.Update.State.{Device}

-- No type stands in two rows.
abbrev IsDistinct {ℓ} : {H : Type ℓ} → List (ℕ × H) → Type 0
IsDistinct [] = Unit
IsDistinct (row ∷ rows) = All (λ other. other.0 ≢ row.0) rows × IsDistinct rows

-- The types of the table.
abbrev pub known_types : List ℕ
known_types =
    0x02 ∷ 0x10 ∷ 0x11 ∷ 0x13 ∷ 0x21 ∷ 0x22 ∷ 0x30 ∷ 0x32 ∷ 0x34 ∷ 0x36 ∷ 0x73 ∷ 0x74 ∷ 0xD3 ∷ 0xF0
    ∷ 0xF1 ∷ []

module _ (nvs : Nvs) (crc32 : Bytes → ℕ) (dev : Device) (multiplier : ℤ) (divisor : ℕ)
    (a : Answers) where
  open nvs use {Flash}

  dispatch_from-get_elem? :
      (rows : List (ℕ × Handler nvs crc32 dev multiplier divisor a)) (i known : ℕ)
      (cb : Handler nvs crc32 dev multiplier divisor a) (msg : Payload) (w : World Flash)
      → IsDistinct rows
      → get_elem? rows i ≡ some (known, cb)
      → dispatch_from nvs crc32 dev multiplier divisor a rows known msg w ≡ cb msg w
  unfolding dispatch_from
  dispatch_from-get_elem? [] i known cb msg w d e = absurd (cc)
  dispatch_from-get_elem? ((k, c) ∷ rows) zero known cb msg w d e =
      let same : k ≡ known = cc in
      let its : c ≡ cb = cc in
      let found : (known == k) ≡ true = ground arith in rw (found, its) refl
  dispatch_from-get_elem? ((k, c) ∷ rows) (suc i) known cb msg w d e =
      let differs : known ≢ k = All-get_elem? (λ row. row.0 ≢ k) rows i (known, cb) d.0 e in
      let other : (known == k) ≡ false = ground arith in
      rw other (dispatch_from-get_elem? rows i known cb msg w d.1 e)

  mapper-IsDistinct : IsDistinct (mapper nvs crc32 dev multiplier divisor a)
  unfolding mapper
  mapper-IsDistinct = ground arith

  -- The handler of every row of the table is reached by the messages of its type: no row hides
  -- another.
  pub dispatcher_handler-mapper :
      (i known : ℕ) (cb : Handler nvs crc32 dev multiplier divisor a) (msg : Payload)
      (w : World Flash)
      → get_elem? (mapper nvs crc32 dev multiplier divisor a) i ≡ some (known, cb)
      → dispatcher_handler nvs crc32 dev multiplier divisor a known msg w ≡ cb msg w
  unfolding dispatcher_handler
  dispatcher_handler-mapper i known cb msg w e =
      dispatch_from-get_elem? (mapper nvs crc32 dev multiplier divisor a) i known cb msg w
        mapper-IsDistinct e

  -- A message of a type that no row names is answered with ESP_ERR_NOT_SUPPORTED.
  dispatch_from_unknown :
      (rows : List (ℕ × Handler nvs crc32 dev multiplier divisor a)) (type_of : ℕ) (msg : Payload)
      (w : World Flash)
      → All (λ known. type_of ≢ known) (map (λ row. row.0) rows)
      → dispatch_from nvs crc32 dev multiplier divisor a rows type_of msg w
        ≡ done (record { code = err_not_supported; actions = []; world = w })
  unfolding dispatch_from
  dispatch_from_unknown [] type_of msg w h = refl
  dispatch_from_unknown ((k, c) ∷ rows) type_of msg w h =
      let other : (type_of == k) ≡ false = ground (arith, h.0) in
      rw other (dispatch_from_unknown rows type_of msg w h.1)

  pub dispatcher_handler_unknown :
      (type_of : ℕ) (msg : Payload) (w : World Flash)
      → All (λ known. type_of ≢ known) known_types
      → dispatcher_handler nvs crc32 dev multiplier divisor a type_of msg w
        ≡ done (record { code = err_not_supported; actions = []; world = w })
  unfolding dispatcher_handler mapper
  dispatcher_handler_unknown type_of msg w h =
      dispatch_from_unknown (mapper nvs crc32 dev multiplier divisor a) type_of msg w h
