-- ===== src/System/Told.antt =====
-- What a message does to the unique id and the coordinates, in memory and in flash.
use es_inverter.Base.{
  ℕ, ◌≡◌, ◌≢◌, ◌<◌, refl, sym, ◌∙◌, ap, inl, inr, arith, true, ltb, ℤ, some, Bytes, All, Bool-cases,
  get_elem?, ◌==◌, ◌&&◌, pos,
}
use es_inverter.Dispatcher.Get.{get_handler, answer, request_of}
use es_inverter.Dispatcher.Handlers.{
  connection_status_handler, reboot_handler, factory_reset_handler, led_evt_identify_msg_handler,
  update_start_handler, update_apply_handler, wireless_enable_handle,
  wireless_set_credentials_handle, wireless_set_tx_power_handle, wireless_set_channel_handle,
  environment_cloud_cover_handler, environment_set_position_handler, coredump_confirmed_handler,
  status_handler,
}
use es_inverter.Dispatcher.Position.{magnitude, environment_set_position_handler_lem}
use es_inverter.Dispatcher.Returns.{
  IsMessage, connection_status, reboot, factory_reset, identify, update_start_of, update_install,
  wireless_enable, wireless_credentials, wireless_tx_power, wireless_channel, cloud_cover,
  set_position, coredump_confirmed, status, get, unknown,
}
use es_inverter.Dispatcher.Routes.{
  known_types, dispatcher_handler-mapper, dispatcher_handler_unknown,
}
use es_inverter.Dispatcher.Table.{Handler, mapper, dispatcher_handler}
use es_inverter.Dispatcher.World.{
  Payload, Answers, World, Handled, environment_position_msg, status_msg,
}
use es_inverter.Rs232.Memory.{done}
use es_inverter.Storage.Dump.{State, section_dump_request}
use es_inverter.Storage.Durable.{
  IsDurable, same_done, with_unique_id-IsDurable, with_longitude-IsDurable, with_latitude-IsDurable,
}
use es_inverter.Storage.Mapper.{type_i64}
use es_inverter.Storage.Nvs.{Nvs}
use es_inverter.Storage.Persist.{
  with_unique_id, with_longitude, with_coordinates, storage_set_device_unique_id_lem,
  storage_set_coordinates_lem,
}
use es_inverter.Storage.Room.{Fits, HasRoom}
use es_inverter.System.Register.{Register, register, taught}
use es_inverter.Update.State.{Device, update_apply}

module _ (nvs : Nvs) (crc32 : Bytes → ℕ) (room : HasRoom nvs) (dev : Device) (a : Answers) where
  open nvs use {Flash}

  -- The storage behind a message holds what the message teaches, in flash as in memory.
  abbrev pub IsTaught : ℕ → Payload → State Flash → State Flash → Type 0
  IsTaught known msg s t = IsDurable nvs crc32 room t × (register t ≡ taught known msg (register s))

  -- A message that leaves the storage alone, and teaches nothing.
  same-IsTaught :
      (known : ℕ) (msg : Payload) {s t : State Flash}
      → IsDurable nvs crc32 room s
      → t ≡ s
      → ((r : Register) → taught known msg r ≡ r)
      → IsTaught known msg s t
  same-IsTaught known msg {s} d same nothing = rw same (d, sym (nothing (register s)))

  handled_by :
      (i known : ℕ) (cb : Handler nvs crc32 dev (pos 1) 100000 a) (msg : Payload) (w : World Flash)
      {r : Handled Flash}
      → get_elem? (mapper nvs crc32 dev (pos 1) 100000 a) i ≡ some (known, cb)
      → dispatcher_handler nvs crc32 dev (pos 1) 100000 a known msg w ≡ done r
      → cb msg w ≡ done r
  handled_by i known cb msg w row e =
      sym (dispatcher_handler-mapper nvs crc32 dev (pos 1) 100000 a i known cb msg w row) ∙ e

  -- A row whose handler leaves the storage alone.
  unmoved :
      (i known : ℕ) (cb : Handler nvs crc32 dev (pos 1) 100000 a) (msg : Payload) (w : World Flash)
      {r : Handled Flash}
      → get_elem? (mapper nvs crc32 dev (pos 1) 100000 a) i ≡ some (known, cb)
      → IsDurable nvs crc32 room w.storage
      → dispatcher_handler nvs crc32 dev (pos 1) 100000 a known msg w ≡ done r
      → (cb msg w ≡ done r → r.world.storage ≡ w.storage)
      → ((reg : Register) → taught known msg reg ≡ reg)
      → IsTaught known msg w.storage r.world.storage
  unmoved i known cb msg w {r} row d e keeps nothing =
      same-IsTaught known msg {s = w.storage} {t = r.world.storage} d
        (keeps (handled_by i known cb msg w {r = r} row e)) nothing

  unknown_teaches_nothing :
      (known : ℕ) (msg : Payload)
      → All (λ t. known ≢ t) known_types
      → (r : Register) → taught known msg r ≡ r
  unknown_teaches_nothing known msg other r = ground arith

  id-IsTaught :
      (known u : ℕ) (msg : Payload) {s t : State Flash}
      → u < 4294967296
      → IsDurable nvs crc32 room s
      → t ≡ with_unique_id nvs crc32 room s u
      → ((r : Register) → taught known msg r ≡ record r { unique_id = u })
      → IsTaught known msg s t
  unfolding section_dump_request
  id-IsTaught known u msg {s} h d same teaches =
      rw same (with_unique_id-IsDurable nvs crc32 room s u h d, sym (teaches (register s)))

  coordinates-IsTaught :
      (lat long : ℤ) {s t : State Flash}
      → Fits type_i64 lat
      → Fits type_i64 long
      → IsDurable nvs crc32 room s
      → t ≡ with_coordinates nvs crc32 room s lat long
      → magnitude lat < 9100000
      → magnitude long < 18100000
      → IsTaught 0x74 (environment_position_msg lat long) s t
  unfolding section_dump_request
  coordinates-IsTaught lat long {s} ha ho d same la lo =
      let north : ltb (magnitude lat) 9100000 ≡ true = ground arith in
      let east : ltb (magnitude long) 18100000 ≡ true = ground arith in
      rw same (
        with_latitude-IsDurable nvs crc32 room (with_longitude nvs crc32 room s long) lat ha
            (with_longitude-IsDurable nvs crc32 room s long ho d),
        rw (north, east) refl,
      )

  position-IsTaught :
      (lat long : ℤ) (w : World Flash) {r : Handled Flash}
      → Fits type_i64 lat
      → Fits type_i64 long
      → IsDurable nvs crc32 room w.storage
      → environment_set_position_handler nvs crc32 dev
          (pos 1)
          100000
          a
          (environment_position_msg lat long)
          w
        ≡ done r
      → IsTaught 0x74 (environment_position_msg lat long) w.storage r.world.storage
  position-IsTaught lat long w {r} ha ho d e =
      elim (environment_set_position_handler_lem nvs crc32 room dev a lat long w ha ho) [
        | inl (la, lo, (t, set, handled, coord)) ↦
            let its : r.world.storage ≡ t =
              ap (λ (h : Handled Flash). h.world.storage) (same_done (sym e ∙ handled)) in
            coordinates-IsTaught lat long {s = w.storage} {t = r.world.storage} ha ho d
              (its
                ∙ same_done
                    (sym set ∙ storage_set_coordinates_lem nvs crc32 room w.storage lat long ha ho))
              la lo
        | inr (out, handled) ↦
            let its : r.world.storage ≡ w.storage =
              ap (λ (h : Handled Flash). h.world.storage) (same_done (sym e ∙ handled)) in
            same-IsTaught 0x74 (environment_position_msg lat long) {s = w.storage}
              {t = r.world.storage} d its (λ reg. ground arith)
      ]

  status-IsTaught :
      (error rq_type : ℕ) (w : World Flash) {r : Handled Flash}
      → IsDurable nvs crc32 room w.storage
      → status_handler nvs crc32 dev (pos 1) 100000 a (status_msg error rq_type) w ≡ done r
      → IsTaught 0xF0 (status_msg error rq_type) w.storage r.world.storage
  unfolding status_handler
  status-IsTaught error rq_type w {r} d e =
      let stored = storage_set_device_unique_id_lem nvs crc32 room w.storage 0 (omega arith) in
      elim (Bool-cases (rq_type == 1 && error == 3)) [
        | inl refused ↦
            let its : r.world.storage ≡ with_unique_id nvs crc32 room w.storage 0 = ground arith in
            id-IsTaught 0xF0 0 (status_msg error rq_type) {s = w.storage} {t = r.world.storage}
              (omega arith) d its (λ reg. ground arith)
        | inr other ↦
            let its : r.world.storage ≡ w.storage = ground arith in
            same-IsTaught 0xF0 (status_msg error rq_type) {s = w.storage} {t = r.world.storage} d
              its (λ reg. ground arith)
      ]

  -- The storage behind a message that is handled.
  pub dispatcher_handler-IsTaught :
      (known : ℕ) (msg : Payload) (w : World Flash) {r : Handled Flash}
      → IsMessage known msg
      → IsDurable nvs crc32 room w.storage
      → dispatcher_handler nvs crc32 dev (pos 1) 100000 a known msg w ≡ done r
      → IsTaught known msg w.storage r.world.storage
  unfolding mapper connection_status_handler reboot_handler factory_reset_handler
      led_evt_identify_msg_handler update_start_handler update_apply_handler update_apply
      wireless_enable_handle wireless_set_credentials_handle wireless_set_tx_power_handle
      wireless_set_channel_handle environment_cloud_cover_handler coredump_confirmed_handler
      get_handler answer request_of
  dispatcher_handler-IsTaught known msg w {r} (connection_status u h) d e =
      let by = handled_by 0 0x02 _ _ w refl e in
      let stored = storage_set_device_unique_id_lem nvs crc32 room w.storage u h in
      id-IsTaught 0x02 u msg {s = w.storage} {t = r.world.storage} h d (ground arith) (λ reg. refl)
  dispatcher_handler-IsTaught known msg w {r} (reboot m) d e =
      unmoved 1 0x10 _ msg w {r = r} refl d e (λ by. ground arith) (λ reg. ground arith)
  dispatcher_handler-IsTaught known msg w {r} (factory_reset m) d e =
      unmoved 2 0x11 _ msg w {r = r} refl d e (λ by. ground arith) (λ reg. ground arith)
  dispatcher_handler-IsTaught known msg w {r} (identify mode count h) d e =
      unmoved 3 0x13 _ msg w {r = r} refl d e (λ by. ground arith) (λ reg. ground arith)
  dispatcher_handler-IsTaught known msg w {r}
        (update_start_of dev_type fw_ver hw_ver url len policy h) d e =
      unmoved 4 0x21 _ msg w {r = r} refl d e (λ by. ground arith) (λ reg. ground arith)
  dispatcher_handler-IsTaught known msg w {r} (update_install fw_ver delay) d e =
      unmoved 5 0x22 _ msg w {r = r} refl d e (λ by. ground arith) (λ reg. ground arith)
  dispatcher_handler-IsTaught known msg w {r} (wireless_enable protocol enabled) d e =
      unmoved 6 0x30 _ msg w {r = r} refl d e (λ by. ground arith) (λ reg. ground arith)
  dispatcher_handler-IsTaught known msg w {r} (wireless_credentials protocol network password) d e =
      unmoved 7 0x32 _ msg w {r = r} refl d e (λ by. ground arith) (λ reg. ground arith)
  dispatcher_handler-IsTaught known msg w {r} (wireless_tx_power protocol power) d e =
      unmoved 8 0x34 _ msg w {r = r} refl d e (λ by. ground arith) (λ reg. ground arith)
  dispatcher_handler-IsTaught known msg w {r} (wireless_channel protocol channel) d e =
      unmoved 9 0x36 _ msg w {r = r} refl d e (λ by. ground arith) (λ reg. ground arith)
  dispatcher_handler-IsTaught known msg w {r} (cloud_cover m) d e =
      unmoved 10 0x73 _ msg w {r = r} refl d e (λ by. ground arith) (λ reg. ground arith)
  dispatcher_handler-IsTaught known msg w {r} (coredump_confirmed m) d e =
      unmoved 12 0xD3 _ msg w {r = r} refl d e (λ by. ground arith) (λ reg. ground arith)
  dispatcher_handler-IsTaught known msg w {r} (get rq_type param) d e =
      unmoved 14 0xF1 _ msg w {r = r} refl d e (λ by. ground arith) (λ reg. ground arith)
  dispatcher_handler-IsTaught known msg w {r} (set_position lat long ha ho) d e =
      position-IsTaught lat long w {r = r} ha ho d (handled_by 11 0x74 _ msg w {r = r} refl e)
  dispatcher_handler-IsTaught known msg w {r} (status error rq_type) d e =
      status-IsTaught error rq_type w {r = r} d (handled_by 13 0xF0 _ msg w {r = r} refl e)
  dispatcher_handler-IsTaught known msg w {r} (unknown t m other) d e =
      let its : r.world.storage ≡ w.storage =
        ap (λ (h : Handled Flash). h.world.storage)
          (same_done (
            sym e ∙ dispatcher_handler_unknown nvs crc32 dev (pos 1) 100000 a known msg w other)) in
      same-IsTaught known msg {s = w.storage} {t = r.world.storage} d its
        (unknown_teaches_nothing known msg other)
