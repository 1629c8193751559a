-- ===== src/Update/Tests.antt =====
-- The update at concrete requests: version 1.2.3 is installed, and 1.2.4 asked for.
use es_inverter.Base.{
  ◌+◌, ◌*◌, ◌≡◌, ◌≢◌, replicate, refl, ◌⊎◌, arith, true, List, [], ◌∷◌, none, some, Bytes,
}
use es_inverter.Rs232.Memory.{done, c_string}
use es_inverter.Update.Events.{
  OtaEvent, ota_transfer, ota_abort, http_ota_event_handler, run_events,
  run_events-update_in_progress,
}
use es_inverter.Update.Image.{update_fw_url-update_start}
use es_inverter.Update.Refused.{IsPath, IsNew, IsRefused, IsSubmitted, update_start_lem}
use es_inverter.Update.State.{
  Device, UpdateState, update_state, update_start, set_new_fw_url, update_numeric_fw_ver,
  update_fw_url, update_in_progress, transfer, update_new_progress_handler, update_error_handler,
  send_update_status,
}
use es_inverter.Update.Version.{
  get_fw_version_string, get_fw_version_string-dec_from, digits, strtoul,
}

-- "1.2.3"
abbrev installed : Bytes
installed = b'1' ∷ b'.' ∷ b'2' ∷ b'.' ∷ b'3' ∷ 0 ∷ []

abbrev dev : Device
dev = record { version = installed; hw_ver = 3; dev_type = 9; compile_time = 1000 }

get_fw_version_string-dec_from_example :
    get_fw_version_string (b'1' ∷ b'.' ∷ b'2' ∷ b'.' ∷ b'3' ∷ b'0' ∷ b'0' ∷ 0 ∷ [])
    ≡ done ((1 * 256 + 2) * 256 + 44)
get_fw_version_string-dec_from_example =
    get_fw_version_string-dec_from b'1' b'2' b'3' [] [] (b'0' ∷ b'0' ∷ []) [] (ground arith)
      (ground arith) (ground arith) (omega arith) (omega arith) (omega arith)

installed_version : get_fw_version_string installed ≡ done 66051
unfolding get_fw_version_string strtoul digits
installed_version = refl

update_fw_url-update_start_example :
    (after : UpdateState) × (update_start dev
        (λ array. 0)
        9
        66052
        3
        (some (b'/' ∷ b'f' ∷ 0 ∷ []))
        2
        1
        update_state
      ≡ done (0, after))
    × (after.phase ≡ update_state.phase)
    × (c_string after.new_fw_image_url ≡ done (b'/' ∷ b'f' ∷ []))
    × (update_fw_url after ≡ done (66052, some after.new_fw_image_url))
update_fw_url-update_start_example =
    update_fw_url-update_start dev (λ array. 0) 66052 1 66051 (b'f' ∷ []) (0 ∷ []) update_state
      installed_version (λ e. omega arith) (omega arith) (ground arith) (λ array. refl)

-- A request for this device, which the download takes.
abbrev submitted : UpdateState
submitted = record update_state {
  new_fw_image_url = b'/' ∷ b'f' ∷ replicate 126 0;
  new_fw_ver = 66052;
  policy = 1;
}

submitted_run :
    update_start dev (λ array. 0) 9 66052 3 (some (b'/' ∷ b'f' ∷ 0 ∷ [])) 2 1 update_state
    ≡ done (0, submitted)
unfolding update_start set_new_fw_url get_fw_version_string strtoul digits
submitted_run = refl

update_start_lem_example :
    ((9 ≢ dev.dev_type) × IsRefused update_state 8 0 submitted)
    ⊎ ((9 ≡ dev.dev_type) × (3 ≢ dev.hw_ver) × IsRefused update_state 9 0 submitted)
    ⊎ ((9 ≡ dev.dev_type)
        × (3 ≡ dev.hw_ver)
        × (update_numeric_fw_ver dev none ≡ done 66052)
        × IsRefused update_state 10 0 submitted)
    ⊎ ((9 ≡ dev.dev_type)
        × (3 ≡ dev.hw_ver)
        × IsNew dev 66052
        × (¬ IsPath (some (b'/' ∷ b'f' ∷ 0 ∷ [])) 2)
        × IsRefused update_state 11 0 submitted)
    ⊎ ((9 ≡ dev.dev_type)
        × (3 ≡ dev.hw_ver)
        × IsNew dev 66052
        × IsPath (some (b'/' ∷ b'f' ∷ 0 ∷ [])) 2
        × IsSubmitted (λ array. 0) 66052 (some (b'/' ∷ b'f' ∷ 0 ∷ [])) 2 1 update_state 0 submitted)
update_start_lem_example =
    update_start_lem dev (λ array. 0) 9 66052 3 (some (b'/' ∷ b'f' ∷ 0 ∷ [])) 2 1 update_state
      submitted_run

-- A transfer at 10 percent, which is then aborted.
abbrev transferring : UpdateState
transferring = record update_state { phase = transfer; new_fw_ver = 66052; progress = 5 }

abbrev events : List OtaEvent
events = ota_transfer 10 ∷ ota_abort 3 ∷ []

abbrev aborted : UpdateState
aborted = record transferring { progress = 10; error = 3 }

events_run : run_events dev events transferring ≡ done aborted
unfolding http_ota_event_handler update_new_progress_handler update_error_handler send_update_status
events_run = refl

run_events-update_in_progress_example : update_in_progress aborted ≡ true
unfolding update_in_progress
run_events-update_in_progress_example =
    run_events-update_in_progress dev events transferring refl events_run
