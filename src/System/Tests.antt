-- ===== src/System/Tests.antt =====
-- The device as a whole at concrete states.
use es_inverter.Base.{ℕ, ◌≡◌, ◌∙◌, none, refl, arith, List, [], ◌∷◌, Bytes, pos}
use es_inverter.Dispatcher.Example.{device, answers, installed_version}
use es_inverter.Dispatcher.Handlers.{connection_status_handler}
use es_inverter.Dispatcher.Returns.{connection_status}
use es_inverter.Dispatcher.Routes.{dispatcher_handler-mapper}
use es_inverter.Dispatcher.Run.{Message}
use es_inverter.Dispatcher.World.{
  connection_status_msg, post_auth, schedule_authentication, Handled,
}
use es_inverter.Main.Reset.{
  ShutdownAction, dump_database, tcp_disconnect_panic, wifi_stop_reconnecting, print_stats,
  Stopping, app_shutdown_handlers, delayed_esp_reboot,
}
use es_inverter.Storage.Written.{saved}
use es_inverter.System.Starts.{behind_shutdown}
use es_inverter.Dispatcher.Table.{mapper, dispatcher_handler}
use es_inverter.Rs232.Memory.{done}
use es_inverter.Storage.Data.{factory_config}
use es_inverter.Storage.Dump.{State, storage_init, section_dump_request}
use es_inverter.Storage.Persist.{with_unique_id, storage_set_device_unique_id_lem}
use es_inverter.Storage.Example.{Memory, memory, memory-HasRoom, memory-IsTyped}
use es_inverter.Storage.Filled.{filled, init_fills}
use es_inverter.System.Device.{
  Sys, told, cold, started, reboot, power_loss, Run, here, quiet, command, handle, world_of,
}
use es_inverter.System.Register.{register}
use es_inverter.System.Refines.{register-obeyed}
use es_inverter.System.Serves.{Serves, Run-Serves}
use es_inverter.System.Sound.{IsSound}

-- A checksum that is the same for all.
abbrev seven : Bytes → ℕ
seven bytes = 7

abbrev shut_down : Stopping memory seven
shut_down s = app_shutdown_handlers memory seven s

abbrev empty : Memory
empty = (λ k. none, λ k. none)

-- A new device, whose flash is empty.
abbrev running : Sys Memory
running = started (cold empty)

new_started : storage_init memory seven (cold empty) ≡ done (cold empty)
new_started = init_fills memory seven memory-HasRoom (cold empty)

abbrev assigned : Message
assigned = record { type_of = 0x02; msg = connection_status_msg 77; answers = answers }

-- The id is assigned, then the device is rebooted, and then the power is lost.
abbrev with_id : Sys Memory
with_id = record running { storage = with_unique_id memory seven memory-HasRoom running.storage 77 }

abbrev answer_of : Handled Memory
answer_of = record {
  code = pos 0;
  actions = post_auth 77 ∷ schedule_authentication 11695 ∷ [];
  world = world_of with_id;
}

assigned_run :
    dispatcher_handler memory seven device
      (pos 1)
      100000
      answers
      0x02
      assigned.msg
      (world_of running)
    ≡ done answer_of
unfolding connection_status_handler mapper
assigned_run =
    dispatcher_handler-mapper memory seven device (pos 1) 100000 answers 0 0x02 _ assigned.msg
      (world_of running) refl
    ∙ rw
        (storage_set_device_unique_id_lem memory seven memory-HasRoom running.storage 77
          (omega arith))
        refl

abbrev stopped : State Memory
stopped = behind_shutdown memory seven memory-HasRoom with_id.storage

abbrev left : Memory
left = memory.power_up stopped.flash

abbrev restarted : State Memory
restarted = record (cold left) {
  database = filled memory seven memory-HasRoom left factory_config;
  flash = left;
}

stopped_run :
    delayed_esp_reboot memory seven shut_down with_id.storage
    ≡ done
        (dump_database ∷ tcp_disconnect_panic ∷ wifi_stop_reconnecting ∷ print_stats ∷ [], stopped)
unfolding delayed_esp_reboot app_shutdown_handlers
stopped_run = rw (saved memory seven memory-HasRoom with_id.storage) refl

interrupted : Run memory seven device shut_down running (told assigned ∷ []) (started restarted)
unfolding section_dump_request
interrupted =
    command (told assigned)
      (handle assigned {r = answer_of} (connection_status 77 (omega arith)) assigned_run)
      (quiet
        (reboot {t = restarted} stopped_run (init_fills memory seven memory-HasRoom (cold left)))
        (quiet
          (power_loss {t = restarted} (λ t k size. refl)
            (init_fills memory seven memory-HasRoom (cold left)))
          (here (started restarted))))

register-obeyed_example :
    (register restarted ≡ record {
      unique_id = 77;
      coord = record { latitude = pos 5222970; longitude = pos 2101220 };
    })
    × ((actions : List ShutdownAction) × (shut again : State Memory) × (delayed_esp_reboot memory
            seven shut_down restarted
          ≡ done (actions, shut))
        × (storage_init memory seven (cold (memory.power_up shut.flash)) ≡ done again)
        × (register again ≡ record {
          unique_id = 77;
          coord = record { latitude = pos 5222970; longitude = pos 2101220 };
        }))
register-obeyed_example =
    register-obeyed memory seven memory-HasRoom device shut_down (λ s. refl) memory-IsTyped empty
      (cold empty) (started restarted) (told assigned ∷ []) new_started interrupted

Run-Serves_example :
    IsSound (started restarted)
    × Serves memory seven memory-HasRoom device shut_down (started restarted) assigned
Run-Serves_example =
    Run-Serves memory seven memory-HasRoom device shut_down 66051 empty (cold empty)
      (started restarted) (told assigned ∷ []) assigned (λ bytes. omega arith) (λ s. refl)
      installed_version (connection_status 77 (omega arith)) refl new_started interrupted
