-- ===== src/Dispatcher/Identity.antt =====
-- dispatcher.c, storage.c and sys_evt.c: the unique id from the server's message through a restart to
-- the client info of the next connection.
use es_inverter.Base.{
  ℕ, ◌<◌, ◌≤◌, bit_and, ◌≡◌, refl, ap, arith, false, [], ◌∷◌, Bytes, ◌==◌, ℤ, none,
}
use es_inverter.Base.Masks.{bit_and-mask}
use es_inverter.Dispatcher.Handlers.{ok_code, authentication_delay, connection_status_handler}
use es_inverter.Dispatcher.World.{
  connection_status_msg, post_auth, schedule_authentication, Answers, World,
}
use es_inverter.Evt.Handlers.{tcp_online, register_tx, send_client_info, tcp_client_event_handler}
use es_inverter.Rs232.Memory.{done}
use es_inverter.Storage.Dump.{State, storage_init, section_dump_request, storage_force_dump_panic}
use es_inverter.Storage.Data.{Database}
use es_inverter.Storage.Restart.{IsWords, storage_init-save_database}
use es_inverter.Storage.Nvs.{Nvs}
use es_inverter.Storage.Persist.{with_unique_id, storage_set_device_unique_id_lem}
use es_inverter.Storage.Room.{HasRoom}
use es_inverter.Update.State.{Device, update_numeric_fw_ver}

module _ (nvs : Nvs) (crc32 : Bytes → ℕ) (room : HasRoom nvs) (dev : Device) (a : Answers) where
  open nvs use {Flash, power_up}

  -- A reboot dumps this storage, and the first report of the device that starts then.
  abbrev pub Reports : State Flash → ℕ → ℕ → Type 0
  Reports s sent_id fw_ver =
      (stopped restarted : State Flash) × (storage_force_dump_panic nvs crc32 s ≡ done stopped)
      × (storage_init nvs crc32 (record stopped { flash = power_up stopped.flash })
          ≡ done restarted)
      × (tcp_client_event_handler dev restarted.database.device.perm.unique_id tcp_online
          ≡ done (register_tx ∷ send_client_info sent_id dev.hw_ver fw_ver ∷ []))

  reported :
      (u : ℕ) (fw_ver : ℕ)
      → u < 0xFFFFFFFF
      → update_numeric_fw_ver dev none ≡ done fw_ver
      → tcp_client_event_handler dev u tcp_online
        ≡ done (register_tx ∷ send_client_info u dev.hw_ver fw_ver ∷ [])
  unfolding tcp_client_event_handler
  reported u fw_ver h e = let known : (u == 0xFFFFFFFF) ≡ false = ground arith in rw (e, known) refl

  remembered :
      (s : State Flash) (u fw_ver : ℕ)
      → IsWords s.database
      → u < 0xFFFFFFFF
      → update_numeric_fw_ver dev none ≡ done fw_ver
      → Reports (with_unique_id nvs crc32 room s u) u fw_ver
  unfolding section_dump_request
  remembered s u fw_ver words h e =
      let set : State Flash = with_unique_id nvs crc32 room s u in
      let set_words : IsWords set.database = record {
        checksum_word = words.checksum_word;
        unique_id_word = omega arith;
        latitude_word = words.latitude_word;
        longitude_word = words.longitude_word;
        ds_word = words.ds_word;
      } in
      let (kept, reset) = storage_init-save_database nvs crc32 room set set_words in
      let (stopped, dumped, found) = kept in
      let (restarted, started, same) = found in
      let id : restarted.database.device.perm.unique_id ≡ u =
        ap (λ (db : Database). db.device.perm.unique_id) same in
      (stopped, restarted, dumped, started, rw id (reported u fw_ver h e))

  -- With a flash that has room, and a database that holds words: a unique id that the server assigns,
  -- other than 0xFFFFFFFF, is posted and kept, the image is to be confirmed after 10 to 43 seconds
  -- whatever the random number is, the update is left as it was, and after a reboot, which dumps the
  -- database, the client info carries that id.
  pub connection_status_handler-tcp_client_event_handler :
      (multiplier : ℤ) (divisor : ℕ) (u fw_ver : ℕ) (w : World Flash)
      → IsWords w.storage.database
      → u < 0xFFFFFFFF
      → a.event_post ≡ 0
      → update_numeric_fw_ver dev none ≡ done fw_ver
      → (set : State Flash) × (delay : ℕ) × (connection_status_handler nvs crc32 dev multiplier
            divisor a
            (connection_status_msg u)
            w
          ≡ done (record {
            code = ok_code;
            actions = post_auth u ∷ schedule_authentication delay ∷ [];
            world = record w { storage = set };
          }))
        × (10000 ≤ delay)
        × (delay ≤ 42767)
        × Reports set u fw_ver
  unfolding connection_status_handler
  connection_status_handler-tcp_client_event_handler multiplier divisor u fw_ver w words h posted
        e =
      let mask : bit_and a.random 0x7FFF ≤ 0x7FFF = bit_and-mask a.random 0x7FFF in
      (
        with_unique_id nvs crc32 room w.storage u,
        authentication_delay a.random,
        rw (posted, storage_set_device_unique_id_lem nvs crc32 room w.storage u (omega arith)) refl,
        omega arith,
        omega arith,
        remembered w.storage u fw_ver words h e,
      )
