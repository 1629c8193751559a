-- ===== src/Evt/Scenes.antt =====
-- led_scene_evt.c: the scenes of the LED, and the table of those that the events show. What
-- `led_scene_trigger` asserts of a scene is `accepts`.
use es_inverter.Base.{
  ℕ, ◌+◌, ◌*◌, ◌%◌, Bool, true, not, ◌&&◌, List, [], ◌∷◌, if◌then◌else◌, ◌==◌, ltb,
}

-- `scene_t`
pub record Scene : Type 0 where
  pub type_of : ℕ
  pub color : ℕ
  pub brightness : ℕ
  pub t_on : ℕ
  pub t_off : ℕ
  pub repeats : ℕ
  pub period : ℕ

-- `scene_type_t`, of the types that are used here.
abbrev pub scene_blink_once : ℕ
scene_blink_once = 2

abbrev pub scene_blink_periodic : ℕ
scene_blink_periodic = 3

abbrev pub scene_clear_once : ℕ
scene_clear_once = 4

abbrev pub scene_clear_all : ℕ
scene_clear_all = 6

-- `rgb_color_t`
abbrev pub rgb_led_red : ℕ
rgb_led_red = 0xFF0000

abbrev pub rgb_led_blue : ℕ
rgb_led_blue = 0x0000FF

abbrev pub rgb_led_purple : ℕ
rgb_led_purple = 0x800080

abbrev pub rgb_led_pink : ℕ
rgb_led_pink = 0xFFC0CB

abbrev pub rgb_led_lavender : ℕ
rgb_led_lavender = 0x2000FF

-- A scene that blinks has times, repeats and a colour; a periodic one fits its period.
abbrev blinks : Scene → Bool
blinks s = not (s.t_on == 0) && not (s.t_off == 0) && not (s.repeats == 0) && not (s.color == 0)

abbrev pub accepts : Scene → Bool
accepts s =
    let shown : ℕ = s.repeats * (s.t_on + s.t_off) % 4294967296 in
    let fits : Bool = ltb shown s.period in
    if s.type_of == scene_blink_once
    then blinks s
    else if s.type_of == scene_blink_periodic
    then blinks s && fits
    else true

abbrev uint16_max : ℕ
uint16_max = 0xFFFF

abbrev pub scene_once : ℕ → ℕ → ℕ → ℕ → ℕ → Scene
scene_once color brightness on off rep = record {
  type_of = scene_blink_once;
  color = color;
  brightness = brightness;
  t_on = on;
  t_off = off;
  repeats = rep;
  period = 0;
}

abbrev cleared : ℕ → Scene
cleared type_of = record {
  type_of = type_of;
  color = 0;
  brightness = 0;
  t_on = 0;
  t_off = 0;
  repeats = 0;
  period = 0;
}

abbrev pub clear_all : Scene
clear_all = cleared scene_clear_all

abbrev pub clear_once : Scene
clear_once = cleared scene_clear_once

-- The bases and identifiers of the events of the table.
pub data LedEvent : Type 0 where
  ble_connected ble_deinit : LedEvent
  client_online client_conn_error client_rx_error client_tx_error : LedEvent
  not_provisioned provisioned station_connected : LedEvent
  ota_aborted ota_progress ota_image_verified : LedEvent
  button_3x_click button_3x_short_1x_very_long : LedEvent

unfoldable pub scenes_list : List (LedEvent × Scene)
scenes_list =
    (ble_connected, scene_once rgb_led_blue 70 300 400 800)
    ∷ (ble_deinit, clear_once)
    ∷ (client_online, clear_all)
    ∷ (client_online, scene_once rgb_led_lavender 100 1000 200 1)
    ∷ (client_conn_error, scene_once rgb_led_red 100 200 200 3)
    ∷ (client_rx_error, scene_once rgb_led_red 100 200 200 1)
    ∷ (client_tx_error, scene_once rgb_led_red 100 200 200 1)
    ∷ (not_provisioned, scene_once rgb_led_blue 100 300 400 uint16_max)
    ∷ (provisioned, clear_once)
    ∷ (provisioned, scene_once rgb_led_purple 50 100 500 uint16_max)
    ∷ (station_connected, clear_all)
    ∷ (station_connected, scene_once rgb_led_purple 100 1000 200 1)
    ∷ (ota_aborted, scene_once rgb_led_red 100 200 200 2)
    ∷ (ota_progress, scene_once rgb_led_lavender 50 100 200 2)
    ∷ (ota_image_verified, scene_once rgb_led_lavender 50 100 200 1)
    ∷ (button_3x_click, scene_once rgb_led_blue 100 300 400 800)
    ∷ (button_3x_short_1x_very_long, scene_once rgb_led_purple 70 200 200 4)
    ∷ []
