-- ===== src/Dispatcher/Power.antt =====
-- dispatcher.c: the transmit power that the server sets and reads.
use es_inverter.Base.{
  ℕ, ◌*◌, ◌/◌, ◌+◌, ◌≤◌, ◌<◌, ◌≡◌, refl, arith, ◌||◌, false, [], ◌∷◌, some, Bytes, ltb_ℤ, ℤ, pos,
  ◌*ℤ◌,
}
use es_inverter.Dispatcher.Get.{get_handler, answer, request_of}
use es_inverter.Dispatcher.Handlers.{
  ok_code, protocol_wifi, wireless_set_tx_power_handle, quarter_dbm,
}
use es_inverter.Dispatcher.World.{
  wireless_tx_power_msg, get_msg, set_tx_power, send_wireless_tx_power, Answers, World,
}
use es_inverter.Rs232.Memory.{done}
use es_inverter.Storage.Nvs.{Nvs}
use es_inverter.Update.State.{Device}

module _ (nvs : Nvs) (crc32 : Bytes → ℕ) (dev : Device) (a : Answers) where
  open nvs use {Flash}

  -- A power of n tenths of a dBm, from 20 to 210, is handed to the radio as a number of quarters of a
  -- dBm, from 8 to 84, rounded down. Whatever level other than 0 the radio then has, in quarters, a
  -- read reports four times that level, which is more than the level in tenths of a dBm.
  pub get_handler-wireless_set_tx_power_handle :
      (multiplier : ℤ) (divisor n level param : ℕ) (w : World Flash)
      → 20 ≤ n
      → n ≤ 210
      → 0 < level
      → a.wifi_tx_power ≡ some (pos level)
      → (q : ℕ) × (wireless_set_tx_power_handle nvs crc32 dev multiplier divisor a
            (wireless_tx_power_msg protocol_wifi (pos n))
            w
          ≡ done
              (record { code = a.wifi_set_tx_power q; actions = set_tx_power q ∷ []; world = w }))
        × (8 ≤ q)
        × (q ≤ 84)
        × (q * 10 ≤ n * 4)
        × (n * 4 < q * 10 + 10)
        × (get_handler nvs crc32 dev a (get_msg 0x35 param) w
            ≡ done (record {
              code = ok_code;
              actions = send_wireless_tx_power (pos (4 * level)) ∷ [];
              world = w;
            }))
        × (level * 10 / 4 < 4 * level)
  unfolding wireless_set_tx_power_handle get_handler answer request_of
  get_handler-wireless_set_tx_power_handle multiplier divisor n level param w low high on e =
      let power : quarter_dbm nvs crc32 dev multiplier divisor a (pos n) ≡ 4 * n / 10 =
        ground arith in
      let taken : (ltb_ℤ (pos n) (pos 20) || ltb_ℤ (pos 210) (pos n)) ≡ false = ground arith in
      let reply : pos 4 *ℤ pos level ≡ pos (4 * level) = ground arith in
      (
        4 * n / 10,
        rw (taken, power) refl,
        omega arith,
        omega arith,
        omega arith,
        omega arith,
        rw (e, reply) refl,
        omega arith,
      )
