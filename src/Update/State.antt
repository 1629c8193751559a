-- ===== src/Update/State.antt =====
-- update.c: the state of a firmware update, the requests of the server and the events of the
-- download. What a call sends, schedules or restarts is the list of its effects.
use es_inverter.Base.{
  ℕ, Bool, true, false, not, List, [], ◌∷◌, ◌++◌, Option, none, some, Bytes, length, drop,
  replicate, if◌then◌else◌, ◌==◌, ltb,
}
use es_inverter.Rs232.Memory.{Outcome, done, ◌>>=◌, byte_at, bytes_at, c_string}
use es_inverter.Update.Version.{get_fw_version_string}

-- `update_phase_e`
pub data Phase : Type 0 where
  idle started transfer downloaded ready apply : Phase

abbrev pub is_idle : Phase → Bool
is_idle idle = true
is_idle _ = false

abbrev is_downloaded : Phase → Bool
is_downloaded downloaded = true
is_downloaded _ = false

-- `update_state_t`; the policy is 0 for UPDATE_IMMEDIATE and 1 for UPDATE_DELAYED.
pub record UpdateState : Type 0 where
  pub new_fw_ver : ℕ
  pub phase : Phase
  pub progress : ℕ
  pub error : ℕ
  pub new_fw_image_url : Bytes
  pub policy : ℕ

abbrev pub image_url_max_len : ℕ
image_url_max_len = 128

abbrev pub update_state : UpdateState
update_state = record {
  new_fw_ver = 0;
  phase = idle;
  progress = 0;
  error = 0;
  new_fw_image_url = replicate image_url_max_len 0;
  policy = 0;
}

-- `update_error_e`
abbrev pub error_none : ℕ
error_none = 0

abbrev pub error_invalid_dev_type : ℕ
error_invalid_dev_type = 8

abbrev pub error_invalid_hw_ver : ℕ
error_invalid_hw_ver = 9

abbrev pub error_already_installed : ℕ
error_already_installed = 10

abbrev pub error_invalid_url : ℕ
error_invalid_url = 11

abbrev pub error_sw_fault : ℕ
error_sw_fault = 12

-- What the module asks the rest of the device for.
pub data Effect : Type 0 where
  send_installed_fw : ℕ → ℕ → ℕ → ℕ → Effect
  send_status : ℕ → ℕ → Phase → ℕ → Effect
  restart_after : ℕ → Effect
  restart : Effect

-- The device: the version string of the running image, and what `em_utils` tells of the hardware.
pub record Device : Type 0 where
  pub version : Bytes
  pub hw_ver : ℕ
  pub dev_type : ℕ
  pub compile_time : ℕ

-- Of a description of the running image, or of a given one.
abbrev pub update_numeric_fw_ver : Device → Option Bytes → Outcome ℕ
update_numeric_fw_ver dev none = get_fw_version_string dev.version
update_numeric_fw_ver dev (some version) = get_fw_version_string version

unfoldable pub update_send_installed_fw : Device → UpdateState → Outcome (List Effect)
update_send_installed_fw dev s = do
  installed ← update_numeric_fw_ver dev (some dev.version)
  let downloaded_fw = if is_downloaded s.phase then s.new_fw_ver else 0xFFFFFFFF
  done (send_installed_fw installed downloaded_fw dev.hw_ver dev.compile_time ∷ [])

unfoldable pub send_update_status : Device → UpdateState → Outcome (List Effect)
send_update_status dev s = do
  new_fw_ver ← if is_idle s.phase then update_numeric_fw_ver dev none else done s.new_fw_ver
  done (send_status new_fw_ver s.progress s.phase s.error ∷ [])

-- The URL is null or the memory it points to.
unfoldable pub set_new_fw_url : Option Bytes → ℕ → UpdateState → Outcome (Bool × UpdateState)
set_new_fw_url none fw_url_len s = done (false, s)
set_new_fw_url (some new_url) fw_url_len s =
    let copied : Outcome (Bool × UpdateState) = do
      url ← bytes_at new_url 0 fw_url_len
      done (
        true,
        record s { new_fw_image_url = url ++ drop fw_url_len (replicate image_url_max_len 0) },
      )
    in let checked : Outcome (Bool × UpdateState) = do
      first ← byte_at new_url 0
      if not (first == b'/')
          then done (false, s)
          else if ltb image_url_max_len fw_url_len
          then done (false, s)
          else copied
      in if fw_url_len == 0 then done (false, s) else checked

unfoldable pub update_apply : ℕ → UpdateState → List Effect × UpdateState
update_apply delay_ms s =
    let applied : UpdateState = record s { phase = apply } in
    if not (s.policy == 0)
    then ([], applied)
    else if not (delay_ms == 0)
    then (restart_after delay_ms ∷ [], applied)
    else (restart ∷ [], applied)

abbrev pub with_status : Device → UpdateState → Outcome (List Effect × UpdateState)
with_status dev s = do sent ← send_update_status dev s; done (sent, s)

unfoldable pub update_error_handler : Device → ℕ → UpdateState → Outcome (List Effect × UpdateState)
update_error_handler dev error_code s = with_status dev (record s { error = error_code })

unfoldable pub update_new_progress_handler :
    Device → ℕ → UpdateState → Outcome (List Effect × UpdateState)
update_new_progress_handler dev new_progress s =
    if new_progress == s.progress
    then done ([], s)
    else with_status dev (record s { progress = new_progress; phase = transfer })

unfoldable pub update_started_handler :
    Device → Bytes → UpdateState → Outcome (List Effect × UpdateState)
update_started_handler dev version s = do
  new_fw_ver ← get_fw_version_string version
  with_status dev
      (record s { phase = started; new_fw_ver = new_fw_ver; progress = 0; error = error_none })

unfoldable pub update_downloaded_handler :
    Device → UpdateState → Outcome (List Effect × UpdateState)
update_downloaded_handler dev s = with_status dev (record s { phase = downloaded; progress = 100 })

unfoldable pub update_ready_handler : Device → UpdateState → Outcome (List Effect × UpdateState)
update_ready_handler dev s = with_status dev (record s { phase = ready })

-- The version, and the array of the URL unless its string is empty.
unfoldable pub update_fw_url : UpdateState → Outcome (ℕ × Option Bytes)
update_fw_url s = do
  url ← c_string s.new_fw_image_url
  done (s.new_fw_ver, if length url == 0 then none else some s.new_fw_image_url)

-- The code returned; `start` is the callback that starts the download.
unfoldable pub update_start :
    Device
    → (Bytes → ℕ)
    → ℕ
    → ℕ
    → ℕ
    → Option Bytes
    → ℕ
    → ℕ
    → UpdateState
    → Outcome (ℕ × UpdateState)
update_start dev start dev_type new_fw_ver hw_ver new_url fw_url_len policy s =
    let refuse : ℕ → UpdateState → Outcome (ℕ × UpdateState) =
      λ code t. done (code, record t { error = code }) in
    let submit : UpdateState → Outcome (ℕ × UpdateState) = λ t.
      let u : UpdateState = record t { new_fw_ver = new_fw_ver; policy = policy } in
      if not (start u.new_fw_image_url == 0)
      then refuse error_sw_fault u
      else refuse error_none u in
    let take_url : Outcome (ℕ × UpdateState) = do
      (valid, t) ← set_new_fw_url new_url fw_url_len s
      if not valid then refuse error_invalid_url t else submit t
    in let check_version : Outcome (ℕ × UpdateState) = do
      installed_fw ← update_numeric_fw_ver dev none
      if new_fw_ver == installed_fw then refuse error_already_installed s else take_url
      in if not (dev_type == dev.dev_type)
        then refuse error_invalid_dev_type s
        else if not (hw_ver == dev.hw_ver)
        then refuse error_invalid_hw_ver s
        else check_version

unfoldable pub update_in_progress : UpdateState → Bool
update_in_progress s = not (is_idle s.phase)
