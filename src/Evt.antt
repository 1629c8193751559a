-- ===== src/Evt.antt =====
-- sys_evt.c and led_scene_evt.c: the events of the button and of the connection to the server, and
-- the scenes of the LED.
pub mod Scenes
pub mod Table
pub mod Handlers
mod Tests
