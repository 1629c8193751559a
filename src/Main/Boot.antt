-- ===== src/Main/Boot.antt =====
-- main.c: `app_main`, with evt.h's `evt_init`. A step of a library is an action; an error that
-- ESP_ERROR_CHECK or an assertion refuses is a fault, which restarts the device.
use es_inverter.Base.{ℕ, Bool, ◌||◌, List, [], ◌∷◌, ◌++◌, Bytes, if◌then◌else◌, ◌==◌}
use es_inverter.Main.Confirm.{StartAction, Image, EventGroup, Ended, app_confirm_wait}
use es_inverter.Rs232.Memory.{Outcome, done, fault, ◌>>=◌}
use es_inverter.Storage.Dump.{State, storage_init}
use es_inverter.Storage.Nvs.{Nvs}
use es_inverter.Update.State.{Device, UpdateState}

pub data BootStep : Type 0 where
  flash_init flash_erase event_loop confirm_group scheduler storage : BootStep
  button_events ota_events tcp_events led_scenes button ble_prov wifi_sta sntp : BootStep
  tcp_client rx_handler http_ota debug_stats shutdown_handler : BootStep

abbrev pub err_no_free_pages : ℕ
err_no_free_pages = 0x110d

abbrev pub err_new_version_found : ℕ
err_new_version_found = 0x1110

-- What the libraries answer: error codes, and whether the event group was created.
pub record Boot : Type 0 where
  pub flash_init_ret : ℕ
  pub flash_erase_ret : ℕ
  pub flash_init_again_ret : ℕ
  pub event_loop_ret : ℕ
  pub group_created : Bool
  pub button_ret : ℕ
  pub ota_ret : ℕ
  pub tcp_ret : ℕ
  pub led_ret : ℕ
  pub shutdown_ret : ℕ

-- A call that was made behind those of the list.
abbrev called : BootStep → List BootStep → List BootStep
called step before = before ++ step ∷ []

-- `ESP_ERROR_CHECK`
abbrev pub checked : ℕ → BootStep → List BootStep → Outcome (List BootStep)
checked ret step before = if ret == 0 then done (called step before) else fault

abbrev pub recoverable : ℕ → Bool
recoverable ret = ret == err_no_free_pages || ret == err_new_version_found

-- The partition is erased when it has no free page or a newer format, and tried again.
abbrev flash_inits : Boot → List BootStep → Outcome (List BootStep)
flash_inits b before =
    let again : Outcome (List BootStep) = do
      erased ← checked b.flash_erase_ret flash_erase (called flash_init before)
      checked b.flash_init_again_ret flash_init erased
    in if recoverable b.flash_init_ret then again else checked b.flash_init_ret flash_init before

abbrev sys_evt_init : Boot → List BootStep → Outcome (List BootStep)
sys_evt_init b before = do
  first ← checked b.button_ret button_events before
  second ← checked b.ota_ret ota_events first
  checked b.tcp_ret tcp_events second

abbrev led_evt_init : Boot → List BootStep → Outcome (List BootStep)
led_evt_init b before = checked b.led_ret led_scenes before

abbrev evt_init : Boot → List BootStep → Outcome (List BootStep)
evt_init b before = do sys ← sys_evt_init b before; led_evt_init b sys

abbrev app_confirm_init : Boot → List BootStep → Outcome (List BootStep)
app_confirm_init b before = if b.group_created then done (called confirm_group before) else fault

-- The steps, the actions of the wait for the confirmation and how it ended, and the storage.
pub record Booted (Flash : Type 0) : Type 0 where
  pub steps : List BootStep
  pub actions : List StartAction
  pub storage : State Flash
  pub ended : Ended

module _ (nvs : Nvs) (crc32 : Bytes → ℕ) (dev : Device) (wait_bits : EventGroup → ℕ → ℕ)
    (b : Boot) where
  open nvs use {Flash}

  -- The bits are those that are set while the main task waits.
  unfoldable pub app_main : Image → EventGroup → State Flash → UpdateState → Outcome (Booted Flash)
  app_main image group cold update = do
    flashed ← flash_inits b []
    looped ← checked b.event_loop_ret event_loop flashed
    grouped ← app_confirm_init b looped
    let scheduled = called scheduler grouped
    s ← storage_init nvs crc32 cold
    evts ← evt_init b (called storage scheduled)
    let shown = called ble_prov (called button evts)
    let connected = called tcp_client (called sntp (called wifi_sta shown))
    let served = called debug_stats (called http_ota (called rx_handler connected))
    last ← checked b.shutdown_ret shutdown_handler served
    (actions, ended) ← app_confirm_wait dev wait_bits image group update
    done (record { steps = last; actions = actions; storage = s; ended = ended })

  -- The steps of every start, behind those of the flash.
  abbrev pub common : List BootStep
  common =
      event_loop ∷ confirm_group ∷ scheduler ∷ storage ∷ button_events ∷ ota_events ∷ tcp_events
      ∷ led_scenes ∷ button ∷ ble_prov ∷ wifi_sta ∷ sntp ∷ tcp_client ∷ rx_handler ∷ http_ota
      ∷ debug_stats ∷ shutdown_handler ∷ []
