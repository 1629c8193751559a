-- ===== src/Dispatcher/Kept.antt =====
-- dispatcher.c: what the messages of the server leave alone.
use es_inverter.Base.{
  ℕ, ◌≡◌, ◌⊎◌, inl, inr, arith, List, [], ◌∷◌, some, Bytes, All, length, ◌==◌, ℤ, Bool-cases,
}
use es_inverter.Dispatcher.Get.{get_handler, answer, request_of}
use es_inverter.Dispatcher.Handlers.{
  connection_status_handler, reboot_handler, factory_reset_handler, led_evt_identify_msg_handler,
  update_start_handler, update_apply_handler, wireless_enable_handle,
  wireless_set_credentials_handle, wireless_set_tx_power_handle, wireless_set_channel_handle,
  environment_cloud_cover_handler, environment_set_position_handler, coredump_confirmed_handler,
  status_handler,
}
use es_inverter.Dispatcher.Table.{Handler, mapper, dispatch_from, dispatcher_handler}
use es_inverter.Dispatcher.World.{
  Payload, update_install_msg, connection_status_msg, update_start_msg, environment_position_msg,
  status_msg, Answers, World, Handled,
}
use es_inverter.Rs232.Memory.{done, Outcome-cases}
use es_inverter.Storage.Dump.{storage_set_device_unique_id, storage_set_coordinates}
use es_inverter.Storage.Nvs.{Nvs}
use es_inverter.Update.State.{Device, update_apply, update_start}
use es_inverter.Dispatcher.Saved.{IsKept, IsKept-refl, set_id-IsKept, set_coordinates-IsKept}
use es_inverter.Update.Buffer.{update_start-length}

module _ (nvs : Nvs) (crc32 : Bytes → ℕ) (dev : Device) (multiplier : ℤ) (divisor : ℕ)
    (a : Answers) where
  open nvs use {Flash}

  still :
      (w : World Flash) (r : Handled Flash)
      → length w.update.new_fw_image_url ≡ 128
      → r.world ≡ w
      → IsKept w.storage r.world.storage × (length r.world.update.new_fw_image_url ≡ 128)
  still w r h same = rw same (IsKept-refl nvs crc32 w.storage, h)

  -- What a handler keeps: besides, the array of the URL its length.
  abbrev KeepingHandler : Handler nvs crc32 dev multiplier divisor a → Type 0
  KeepingHandler cb =
      (msg : Payload) (w : World Flash) (r : Handled Flash)
      → length w.update.new_fw_image_url ≡ 128
      → cb msg w ≡ done r
      → IsKept w.storage r.world.storage × (length r.world.update.new_fw_image_url ≡ 128)

  connection_status_keeps :
      KeepingHandler (connection_status_handler nvs crc32 dev multiplier divisor a)
  unfolding connection_status_handler
  connection_status_keeps (connection_status_msg u) w r h e =
      elim (Outcome-cases (storage_set_device_unique_id nvs crc32 w.storage u)) [
        | inl f ↦ absurd (ground arith)
        | inr (t, q) ↦
            let k : IsKept w.storage t = set_id-IsKept nvs crc32 w.storage u {t = t} q in
            let same : r.world ≡ record w { storage = t } = ground arith in rw same (k, h)
      ]
  connection_status_keeps _ w r h e = absurd (ground arith)

  reboot_keeps : KeepingHandler (reboot_handler nvs crc32 dev multiplier divisor a)
  unfolding reboot_handler
  reboot_keeps msg w r h e = still w r h (ground arith)

  factory_reset_keeps : KeepingHandler (factory_reset_handler nvs crc32 dev multiplier divisor a)
  unfolding factory_reset_handler
  factory_reset_keeps msg w r h e = still w r h (ground arith)

  identify_keeps : KeepingHandler (led_evt_identify_msg_handler nvs crc32 dev multiplier divisor a)
  unfolding led_evt_identify_msg_handler
  identify_keeps msg w r h e = still w r h (ground arith)

  wireless_enable_keeps : KeepingHandler (wireless_enable_handle nvs crc32 dev multiplier divisor a)
  unfolding wireless_enable_handle
  wireless_enable_keeps msg w r h e = still w r h (ground arith)

  wireless_credentials_keeps :
      KeepingHandler (wireless_set_credentials_handle nvs crc32 dev multiplier divisor a)
  unfolding wireless_set_credentials_handle
  wireless_credentials_keeps msg w r h e = still w r h (ground arith)

  wireless_tx_power_keeps :
      KeepingHandler (wireless_set_tx_power_handle nvs crc32 dev multiplier divisor a)
  unfolding wireless_set_tx_power_handle
  wireless_tx_power_keeps msg w r h e = still w r h (ground arith)

  wireless_channel_keeps :
      KeepingHandler (wireless_set_channel_handle nvs crc32 dev multiplier divisor a)
  unfolding wireless_set_channel_handle
  wireless_channel_keeps msg w r h e = still w r h (ground arith)

  cloud_cover_keeps :
      KeepingHandler (environment_cloud_cover_handler nvs crc32 dev multiplier divisor a)
  unfolding environment_cloud_cover_handler
  cloud_cover_keeps msg w r h e = still w r h (ground arith)

  coredump_confirmed_keeps :
      KeepingHandler (coredump_confirmed_handler nvs crc32 dev multiplier divisor a)
  unfolding coredump_confirmed_handler
  coredump_confirmed_keeps msg w r h e = still w r h (ground arith)

  get_keeps : KeepingHandler (get_handler nvs crc32 dev a)
  unfolding get_handler answer request_of
  get_keeps msg w r h e = still w r h (ground arith)

  update_apply_keeps : KeepingHandler (update_apply_handler nvs crc32 dev multiplier divisor a)
  unfolding update_apply_handler update_apply
  update_apply_keeps (update_install_msg v delay) w r h e =
      let same : r.world.storage ≡ w.storage = ground arith in
      let array : r.world.update.new_fw_image_url ≡ w.update.new_fw_image_url = ground arith in
      (rw same (IsKept-refl nvs crc32 w.storage), rw array h)
  update_apply_keeps _ w r h e = absurd (ground arith)

  update_start_keeps : KeepingHandler (update_start_handler nvs crc32 dev multiplier divisor a)
  unfolding update_start_handler
  update_start_keeps (update_start_msg dev_type fw_ver hw_ver url len policy) w r h e =
      elim (Outcome-cases (
        update_start dev a.ota_submit_start dev_type fw_ver hw_ver (some url) len policy
          w.update)) [
            | inl f ↦ absurd (ground arith)
            | inr ((err, after), q) ↦
                let same : r.world ≡ record w { update = after } = ground arith in
                rw same (
                  IsKept-refl nvs crc32 w.storage,
                  update_start-length dev a.ota_submit_start dev_type fw_ver hw_ver (some url) len
                      policy w.update {r = err} {after = after} h q,
                )
          ]
  update_start_keeps _ w r h e = absurd (ground arith)

  set_position_keeps :
      KeepingHandler (environment_set_position_handler nvs crc32 dev multiplier divisor a)
  unfolding environment_set_position_handler
  set_position_keeps (environment_position_msg lat long) w r h e =
      elim (Outcome-cases (storage_set_coordinates nvs crc32 w.storage lat long)) [
        | inl f ↦ still w r h (ground arith)
        | inr (t, q) ↦
            let which : (r.world ≡ w) ⊎ (r.world ≡ record w { storage = t }) = ground arith in
            elim which [
              | inl same ↦ still w r h same
              | inr same ↦
                  rw same (set_coordinates-IsKept nvs crc32 w.storage lat long {t = t} q, h)
            ]
      ]
  set_position_keeps _ w r h e = absurd (ground arith)

  status_keeps : KeepingHandler (status_handler nvs crc32 dev multiplier divisor a)
  unfolding status_handler
  status_keeps (status_msg error rq_type) w r h e =
      elim (Outcome-cases (storage_set_device_unique_id nvs crc32 w.storage 0)) [
        | inl f ↦ still w r h (ground arith)
        | inr (t, q) ↦
            let which : (r.world ≡ w) ⊎ (r.world ≡ record w { storage = t }) = ground arith in
            elim which [
              | inl same ↦ still w r h same
              | inr same ↦ rw same (set_id-IsKept nvs crc32 w.storage 0 {t = t} q, h)
            ]
      ]
  status_keeps _ w r h e = absurd (ground arith)

  mapper_keeps : All (λ row. KeepingHandler row.1) (mapper nvs crc32 dev multiplier divisor a)
  unfolding mapper
  mapper_keeps = (
    connection_status_keeps,
    (
      reboot_keeps,
      (
        factory_reset_keeps,
        (
          identify_keeps,
          (
            update_start_keeps,
            (
              update_apply_keeps,
              (
                wireless_enable_keeps,
                (
                  wireless_credentials_keeps,
                  (
                    wireless_tx_power_keeps,
                    (
                      wireless_channel_keeps,
                      (
                        cloud_cover_keeps,
                        (
                          set_position_keeps,
                          (coredump_confirmed_keeps, (status_keeps, (get_keeps, tt))),
                        ),
                      ),
                    ),
                  ),
                ),
              ),
            ),
          ),
        ),
      ),
    ),
  )

  dispatch_from_keeps :
      (rows : List (ℕ × Handler nvs crc32 dev multiplier divisor a)) (type_of : ℕ)
      → All (λ row. KeepingHandler row.1) rows
      → KeepingHandler (dispatch_from nvs crc32 dev multiplier divisor a rows type_of)
  unfolding dispatch_from
  dispatch_from_keeps [] type_of k msg w r h e = still w r h (ground arith)
  dispatch_from_keeps ((known, cb) ∷ rows) type_of k msg w r h e =
      elim (Bool-cases (type_of == known)) [
        | inl same ↦ k.0 msg w r h (ground arith)
        | inr other ↦ dispatch_from_keeps rows type_of k.1 msg w r h (ground arith)
      ]

  pub dispatcher_handler_keeps :
      (type_of : ℕ) → KeepingHandler (dispatcher_handler nvs crc32 dev multiplier divisor a type_of)
  unfolding dispatcher_handler
  dispatcher_handler_keeps type_of =
      dispatch_from_keeps (mapper nvs crc32 dev multiplier divisor a) type_of mapper_keeps
