-- ===== src/Lib.antt =====
-- The firmware of an ESP32 that watches a solar inverter (main/): it asks the inverter over a
-- serial line, keeps what it measures, and takes commands and firmware from a server.
--
-- Modelled, with the files here that do it:
--   * main/modules/rs232_2400_protocol: Rs232. Crc is the table `crc16tab` and `crc16_xmodem`;
--     Command is `em_rs232_2400_cmd_e`; Response has the response structures; Parsers, Words and
--     Scanned have one function for each `parse_rsp_*`; Packet is the switch of
--     `rs232_2400_rsp_parse` (`parse_packet`), Frame the rest of it, in the parts that follow each
--     other in its body (`last_start`, `first_end`, `check_packet`, `read_packet`, `finish`), and
--     `rs232_2400_serialize`. Memory has the reads of C memory.
--   * main/modules/storage: Storage. Data is storage.h with `factory_config`; Meters has the
--     measurements; Callbacks the list of callbacks; Mapper the table `nvs_mapper`; Nvs the
--     transfers to and from flash; Dump the setters, the debounced `dump_check` and
--     `storage_init`; Steps the setters and the two halves of `dump_check` as steps of two tasks.
--   * main/modules/update: Update. Version is `get_fw_version_string`; State has the state and the
--     functions of update.c.
--   * main/modules/inverter: Inverter. Meas has the grid, the battery, the energies and the status
--     of inverter.c, State its other state, Output the AC output and the panels, Store
--     `inv_store_energy_meas`, Handlers msg_handlers.c with `rsp_handlers` and `inv_init`; Status
--     takes the handlers of the status together.
--   * main/modules/dispatcher: Dispatcher. World has the messages and the state, Handlers the
--     handlers but for `get_handler`, which is Get, and Table `mapper` and `dispatcher_handler`.
--   * main/main.c: Main. Confirm is `app_confirm_wait`, Boot `app_main` and the registration of
--     the handlers of events, Reset the shutdown with the delayed reboot and factory reset.
--   * main/modules/evt/sys_evt.c: Evt, for the button and the connection, and Update/Events, for
--     `http_ota_event_handler`.
--   * main/modules/evt/led_scene_evt.c: Evt/Scenes, the table of the scenes, with what
--     `led_scene_trigger` asserts of a scene.
--   * all of them together: System. Device has the state that the tasks share, what they do of
--     their own accord and on a command, and the runs of it; Register is the device as the server
--     sees it, a unique id and coordinates that only commands change.
-- The proofs are in Crc/Bitwise, Crc/Detect, Values, and RoundTrip, OneByte, Safety, Contract,
-- Reported, Rejected and Faults of Frame (in Rs232); Series, Room, Filled, Persist, Written,
-- Restart, Dumps, Requests, Durable, Survives, Committed, First and Race (in Storage); Energy,
-- Grid, History, Ledger, Conserved, Mode and Polled (in Inverter); Image, Array, Buffer, Returns
-- and Refused (in Update); Table (in Evt); Routes, Position, Identity, Identify, Power, Saved,
-- Kept, Returns and Run (in Dispatcher); Waits, Timely and Order (in Main); Told, Starts, Regular,
-- Refines, Sound, Serves and Booted (in System). The Tests are the runs at concrete values, with
-- the Examples of Rs232, Storage, Inverter and Dispatcher, and Base is what all of them share.
--
-- A function is named as in the source. It takes the state it reads and returns the state it
-- leaves. `Outcome` is `done`, or `fault` for undefined behaviour (an access out of bounds, a
-- string with no end, a signed overflow) and for a failed assertion. Unsigned words are cut where
-- the source cuts them; the counters of packets are not cut. A buffer in memory is the list of its
-- bytes from a pointer to the end of the object, so a read behind it is a `fault`. The output of
-- `rs232_2400_rsp_parse` is one field for each type that the source casts it to, and its bytes,
-- into which a rejected packet is copied. Loops are structural recursion on the data, and need no
-- fuel. An effect that restarts the device stands last among those of its call.
--
-- What is set in flash can be got at once, and is kept over a restart from its `nvs_commit` on: a
-- start reads `power_up` of the flash that was left, and nothing is assumed of a value that was
-- set and not committed. `storage_save_db_entry` does not commit; the debounced `dump_check`, the
-- dump at a shutdown and the factory reset do.
--
-- Parameters: `sscanf` with a type of floating-point numbers (the interface Scanf), `malloc` and
-- `calloc`, the library of the flash (the interface Nvs, with its laws in HasRoom and IsTyped),
-- `esp_rom_crc32_le`, the time of the build, the start of a download, the wait for an event group,
-- `esp_restart`, and what the libraries of the network answer. Messages, timers and restarts are
-- effects or flags. The mutex of the storage is left out: each function is one step, but for
-- `dump_check` in Storage/Steps. What inverter.c calls on the histories and the averages of the
-- power is declared in no file of the repository, and is the interface PowerApi; what it computes
-- with floating-point numbers is FloatApi.
--
-- Not modelled: the commented-out `inv_store_meas` of main/modules/inverter; the debug output of
-- main/main.c; log output; managed_components, which are copies of other repositories' libraries.
pub mod Base
pub mod Rs232
pub mod Storage
pub mod Inverter
pub mod Update
pub mod Evt
pub mod Dispatcher
pub mod Main
pub mod System
