-- ===== src/System/Booted.antt =====
-- main.c: the device behind `app_main`, whatever its tasks then do.
use es_inverter.Base.{ℕ, ◌<◌, ◌≡◌, false, none, List, Bytes}
use es_inverter.Dispatcher.Returns.{IsMessage}
use es_inverter.Dispatcher.Run.{Message}
use es_inverter.Main.Boot.{Boot, Booted, app_main}
use es_inverter.Main.Confirm.{Image, EventGroup, returned, app_confirm_wait}
use es_inverter.Main.Order.{app_main_lem}
use es_inverter.Main.Reset.{Stopping, RunsHandlers}
use es_inverter.Rs232.Memory.{done}
use es_inverter.Storage.Nvs.{Nvs}
use es_inverter.Storage.Room.{HasRoom}
use es_inverter.System.Device.{Sys, Command, Run, quiet, confirm, cold}
use es_inverter.System.Serves.{Serves, Run-Serves}
use es_inverter.System.Sound.{IsSound}
use es_inverter.Update.State.{Device, UpdateState, update_numeric_fw_ver, update_state}

-- The device when `app_main` returns.
abbrev running : {F : Type 0} → Booted F → UpdateState → Sys F
running r update = record { storage = r.storage; dumping = false; update = update }

module _ (nvs : Nvs) (crc32 : Bytes → ℕ) (room : HasRoom nvs) (dev : Device)
    (esp_restart : Stopping nvs crc32) where
  open nvs use {Flash}

  -- What `Run-Serves` states, of the states that the device reaches from the return of `app_main`:
  -- with a flash that has room and a checksum of 32 bits, on any flash, with any answers of the
  -- libraries and of the server, and whatever tasks and commands lead there.
  app_main-Serves :
      (wait_bits : EventGroup → ℕ → ℕ) (b : Boot) (image : Image) (group : EventGroup)
      (installed : ℕ) (flash : Flash) (r : Booted Flash) (update : UpdateState) (t : Sys Flash)
      (cs : List Command) (m : Message)
      → ((bytes : Bytes) → crc32 bytes < 4294967296)
      → RunsHandlers nvs crc32 esp_restart
      → update_numeric_fw_ver dev none ≡ done installed
      → IsMessage m.type_of m.msg
      → m.answers.event_post ≡ 0
      → app_main nvs crc32 dev wait_bits b image group (cold flash) update_state ≡ done r
      → r.ended ≡ returned update
      → Run nvs crc32 dev esp_restart (running r update) cs t
      → IsSound t × Serves nvs crc32 room dev esp_restart t m
  app_main-Serves wait_bits b image group installed flash r update t cs m word runs version is
        posted boot ended run =
      let (steps, ready, stored, confirmed) =
        (app_main_lem nvs crc32 dev wait_bits b image group (cold flash) update_state r).0 boot in
      let waited : app_confirm_wait dev wait_bits image group update_state
          ≡ done (r.actions, returned update) =
        rw (← ended) confirmed in
      Run-Serves nvs crc32 room dev esp_restart installed flash r.storage t cs m word runs version
        is posted stored (quiet (confirm wait_bits image group waited) run)
