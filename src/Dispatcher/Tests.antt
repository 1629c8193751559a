-- ===== src/Dispatcher/Tests.antt =====
-- The dispatcher at concrete messages.
use es_inverter.Base.{ℕ, ◌≡◌, ◌⊎◌, ◌≤◌, ◌<◌, ◌*◌, ◌/◌, ◌+◌, refl, arith, List, [], ◌∷◌, pos, negsuc}
use es_inverter.Dispatcher.Example.{device, answers, installed_version}
use es_inverter.Dispatcher.Get.{get_handler}
use es_inverter.Dispatcher.Handlers.{
  ok_code, identify_scene, led_evt_identify_msg_handler, connection_status_handler, reboot_handler,
  wireless_set_tx_power_handle,
}
use es_inverter.Dispatcher.Identify.{IsFatal, led_evt_identify_msg_handler_lem}
use es_inverter.Dispatcher.Identity.{Reports, connection_status_handler-tcp_client_event_handler}
use es_inverter.Dispatcher.Position.{Positioned, environment_set_position_handler_lem}
use es_inverter.Dispatcher.Power.{get_handler-wireless_set_tx_power_handle}
use es_inverter.Dispatcher.Routes.{dispatcher_handler-mapper}
use es_inverter.Dispatcher.Run.{Message}
use es_inverter.Dispatcher.Table.{mapper, dispatcher_handler}
use es_inverter.Dispatcher.World.{
  trigger_scene, no_data, connection_status_msg, identify_msg, wireless_tx_power_msg, get_msg,
  post_auth, schedule_authentication, set_tx_power, send_wireless_tx_power, World,
}
use es_inverter.Rs232.Memory.{done, fault}
use es_inverter.Storage.Dump.{State}
use es_inverter.Storage.Restart.{IsWords, factory-IsWords}
use es_inverter.Storage.Example.{Memory, memory, memory-HasRoom, start, sum}
use es_inverter.Update.State.{update_state}

abbrev world : World Memory
world = record { storage = start; update = update_state }

dispatcher_handler-mapper_example :
    dispatcher_handler memory sum device (pos 1) 100000 answers 0x10 no_data world
    ≡ reboot_handler memory sum device (pos 1) 100000 answers no_data world
unfolding mapper
dispatcher_handler-mapper_example =
    dispatcher_handler-mapper memory sum device (pos 1) 100000 answers 1 0x10
      (reboot_handler memory sum device (pos 1) 100000 answers) no_data world refl

environment_set_position_handler_lem_example :
    Positioned memory sum device answers world (pos 9099999) (negsuc 18099998)
environment_set_position_handler_lem_example =
    environment_set_position_handler_lem memory sum memory-HasRoom device answers (pos 9099999)
      (negsuc 18099998) world (omega arith) (omega arith)

world-IsWords : IsWords world.storage.database
world-IsWords = factory-IsWords

connection_status_handler-tcp_client_event_handler_example :
    (set : State Memory) × (delay : ℕ) × (connection_status_handler memory sum device
        (pos 1)
        100000
        answers
        (connection_status_msg 77)
        world
      ≡ done (record {
        code = ok_code;
        actions = post_auth 77 ∷ schedule_authentication delay ∷ [];
        world = record world { storage = set };
      }))
    × (10000 ≤ delay)
    × (delay ≤ 42767)
    × Reports memory sum memory-HasRoom device answers set 77 66051
connection_status_handler-tcp_client_event_handler_example =
    connection_status_handler-tcp_client_event_handler memory sum memory-HasRoom device answers
      (pos 1) 100000 77 66051 world world-IsWords (omega arith) refl installed_version

get_handler-wireless_set_tx_power_handle_example :
    (q : ℕ) × (wireless_set_tx_power_handle memory sum device
        (pos 1)
        100000
        answers
        (wireless_tx_power_msg 2 (pos 100))
        world
      ≡ done (record { code = pos 0; actions = set_tx_power q ∷ []; world = world }))
    × (8 ≤ q)
    × (q ≤ 84)
    × (q * 10 ≤ 100 * 4)
    × (100 * 4 < q * 10 + 10)
    × (get_handler memory sum device answers (get_msg 0x35 0) world
        ≡ done (record {
          code = ok_code;
          actions = send_wireless_tx_power (pos (4 * 34)) ∷ [];
          world = world;
        }))
    × (34 * 10 / 4 < 4 * 34)
get_handler-wireless_set_tx_power_handle_example =
    get_handler-wireless_set_tx_power_handle memory sum device answers (pos 1) 100000 100 34 0 world
      (omega arith) (omega arith) (omega arith) refl

abbrev messages : List Message
messages =
    record { type_of = 0x10; msg = no_data; answers = answers }
    ∷ record { type_of = 0x13; msg = identify_msg 1 3; answers = answers }
    ∷ record { type_of = 0x02; msg = connection_status_msg 77; answers = answers }
    ∷ record { type_of = 0x99; msg = no_data; answers = answers }
    ∷ []

led_evt_identify_msg_handler_lem_example :
    (IsFatal 2 20
      × (led_evt_identify_msg_handler memory sum device
            (pos 1)
            100000
            answers
            (identify_msg 2 20)
            world
          ≡ fault))
    ⊎ ((¬ IsFatal 2 20)
        × (led_evt_identify_msg_handler memory sum device
              (pos 1)
              100000
              answers
              (identify_msg 2 20)
              world
            ≡ done (record {
              code = ok_code;
              actions = trigger_scene (identify_scene 2 20) ∷ [];
              world = world;
            })))
led_evt_identify_msg_handler_lem_example =
    led_evt_identify_msg_handler_lem memory sum device (pos 1) 100000 answers 2 20 world
      (omega arith) (omega arith)
