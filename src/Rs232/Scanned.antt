-- ===== src/Rs232/Scanned.antt =====
-- rs232_2400_protocol.c: the parsers of one response that leave the numbers to `sscanf`.
use es_inverter.Base.{
  ℕ, zero, suc, ◌*◌, ◌/◌, ◌%◌, ◌^◌, not, List, [], ◌∷◌, none, some, Bytes, bit_or, ltb, ◌==◌,
  if◌then◌else◌, pos, negsuc, u8, u32,
}
use es_inverter.Rs232.Memory.{done, ◌>>=◌}
use es_inverter.Rs232.Parsers.{Parsed}
use es_inverter.Rs232.Response.{
  Qdi2Response, QtprResponse, QgofResponse, QpiriResponse, QpigsResponse, HiloVoltageResponse,
  QchgsResponse,
}
use es_inverter.Rs232.Scanf.{Scanf, Slot, hex, byte, word, to_float, to_int, to_unsigned, scan}

-- What the call of QPIGS fills: the response and two local words.
pub record QpigsScan (Float : Type 0) : Type 0 where
  pub response : QpigsResponse Float
  pub status1 : ℕ
  pub status2 : ℕ

-- `status_bits n word`: bit i of the result is bit 4 * i of the word, for i below n.
unfoldable pub status_bits : ℕ → ℕ → ℕ → ℕ
status_bits zero status device_status = device_status
status_bits (suc i) status device_status =
    bit_or (status_bits i status device_status) (status / 2 ^ (i * 4) % 2 * 2 ^ i)

module _ {Float : Type 0} where
  abbrev pub qpiri_slots : List (Slot Float (QpiriResponse Float))
  qpiri_slots =
      to_float (some 5) (λ v r. record r { grid_rating_voltage = v })
      ∷ to_float (some 4) (λ v r. record r { grid_rating_frequency = v })
      ∷ to_float (some 5) (λ v r. record r { grid_rating_current = v })
      ∷ to_float (some 5) (λ v r. record r { ac_output_rating_voltage = v })
      ∷ to_float (some 5) (λ v r. record r { ac_output_rating_current = v })
      ∷ to_float (some 4) (λ v r. record r { per_mppt_rating_current = v })
      ∷ to_float (some 5) (λ v r. record r { battery_rating_voltage = v })
      ∷ to_int (some 1) (λ v r. record r { mppt_track_number = v })
      ∷ to_int (some 2) (λ v r. record r { machine_type = v })
      ∷ to_int (some 1) (λ v r. record r { topology = v })
      ∷ []

  abbrev pub qpigs_slots : List (Slot Float (QpigsScan Float))
  qpigs_slots =
      to_float none (λ v s. record s { response = record (s.response) { grid_voltage = v } })
      ∷ to_float none (λ v s. record s { response = record (s.response) { grid_frequency = v } })
      ∷ to_float none (λ v s. record s { response = record (s.response) { ac_output_voltage = v } })
      ∷ to_float none
          (λ v s. record s { response = record (s.response) { ac_output_frequency = v } })
      ∷ to_int none
          (λ v s. record s { response = record (s.response) { ac_output_appearent_power = v } })
      ∷ to_int none
          (λ v s. record s { response = record (s.response) { ac_output_active_power = v } })
      ∷ to_int none (λ v s. record s { response = record (s.response) { output_load_percent = v } })
      ∷ to_int none (λ v s. record s { response = record (s.response) { bus_voltage = v } })
      ∷ to_float none (λ v s. record s { response = record (s.response) { battery_voltage = v } })
      ∷ to_int none
          (λ v s. record s { response = record (s.response) { battery_charging_current = v } })
      ∷ to_int none (λ v s. record s { response = record (s.response) { battery_capacity = v } })
      ∷ to_int none (λ v s. record s { response = record (s.response) { temperature = v } })
      ∷ to_float none (λ v s. record s { response = record (s.response) { pv_input_current = v } })
      ∷ to_float none (λ v s. record s { response = record (s.response) { pv_input_voltage = v } })
      ∷ to_float none
          (λ v s. record s { response = record (s.response) { battery_voltage_from_scc = v } })
      ∷ to_int none
          (λ v s. record s { response = record (s.response) { battery_discharging_current = v } })
      ∷ to_unsigned hex (λ v s. record s { status1 = u32 v })
      ∷ to_unsigned byte
          (λ v s. record s { response = record (s.response) { battery_offset = u8 v } })
      ∷ to_unsigned byte
          (λ v s. record s { response = record (s.response) { eeprom_version = u8 v } })
      ∷ to_int none (λ v s. record s { response = record (s.response) { pv_input_power = v } })
      ∷ to_unsigned hex (λ v s. record s { status2 = u32 v })
      ∷ []

  abbrev pub hilo_slots : List (Slot Float HiloVoltageResponse)
  hilo_slots =
      to_int none (λ v r. record r { high_voltage = v })
      ∷ to_int none (λ v r. record r { low_voltage = v })
      ∷ []

  abbrev pub qgof_slots : List (Slot Float (QgofResponse Float))
  qgof_slots =
      to_float none (λ v r. record r { high_frequency = v })
      ∷ to_float none (λ v r. record r { low_frequency = v })
      ∷ []

  abbrev pub qtpr_slots : List (Slot Float (QtprResponse Float))
  qtpr_slots =
      to_float none (λ v r. record r { boost_temp = v })
      ∷ to_float none (λ v r. record r { inverter_temp = v })
      ∷ to_float none (λ v r. record r { inner_temp = v })
      ∷ []

  abbrev pub qdi2_slots : List (Slot Float (Qdi2Response Float))
  qdi2_slots =
      to_float none (λ v r. record r { max_current = v })
      ∷ to_float none (λ v r. record r { max_voltage = v })
      ∷ to_unsigned word (λ v r. record r { wait_time = u32 v })
      ∷ []

  abbrev pub qchgs_slots : List (Slot Float (QchgsResponse Float))
  qchgs_slots =
      to_float none (λ v r. record r { charging_current = v })
      ∷ to_float none (λ v r. record r { floating_voltage = v })
      ∷ to_float none (λ v r. record r { max_current = v })
      ∷ to_float none (λ v r. record r { bulk_voltage = v })
      ∷ []

  abbrev pub qdm_slots : List (Slot Float ℕ)
  qdm_slots = to_unsigned word (λ v r. u32 v) ∷ []

module _ (libc : Scanf) where
  open libc use {Float}

  -- The scan that wants n conversions, and answers -2 to fewer.
  unfoldable pub scan_all : {R : Type 0} → Bytes → List (Slot Float R) → ℕ → R → Parsed R
  scan_all mem slots n response = do
    (parsed, filled) ← scan libc mem slots response
    done (if not (parsed == n) then negsuc 1 else pos 0, filled)

  unfoldable pub parse_rsp_qpiri : Bytes → ℕ → QpiriResponse Float → Parsed (QpiriResponse Float)
  unfolding scan_all
  parse_rsp_qpiri mem len response =
      if not (len == 46) then done (negsuc 0, response) else scan_all mem qpiri_slots 10 response

  -- A scan with fewer than 21 conversions is only logged.
  unfoldable pub parse_rsp_qpigs : Bytes → ℕ → QpigsResponse Float → Parsed (QpigsResponse Float)
  unfolding status_bits
  parse_rsp_qpigs mem len response = if ltb len 106 then done (negsuc 0, response) else do
    (parsed, s) ←
        scan libc mem qpigs_slots (record { response = response; status1 = 0; status2 = 0 })
    done (
      pos 0,
      record (s.response) {
        device_status_1 = status_bits 8 s.status1 (s.response).device_status_1;
        device_status_2 = status_bits 8 s.status2 (s.response).device_status_2;
      },
    )

  unfoldable pub parse_rsp_qgov : Bytes → ℕ → HiloVoltageResponse → Parsed HiloVoltageResponse
  parse_rsp_qgov mem len response =
      if ltb len 11 then done (negsuc 0, response) else scan_all mem hilo_slots 2 response

  unfoldable pub parse_rsp_qgof : Bytes → ℕ → QgofResponse Float → Parsed (QgofResponse Float)
  parse_rsp_qgof mem len response =
      if ltb len 9 then done (negsuc 0, response) else scan_all mem qgof_slots 2 response

  unfoldable pub parse_rsp_qmpptv : Bytes → ℕ → HiloVoltageResponse → Parsed HiloVoltageResponse
  parse_rsp_qmpptv mem len response =
      if ltb len 7 then done (negsuc 0, response) else scan_all mem hilo_slots 2 response

  unfoldable pub parse_rsp_qpvipv : Bytes → ℕ → HiloVoltageResponse → Parsed HiloVoltageResponse
  parse_rsp_qpvipv mem len response =
      if ltb len 7 then done (negsuc 0, response) else scan_all mem hilo_slots 2 response

  unfoldable pub parse_rsp_qtpr : Bytes → ℕ → QtprResponse Float → Parsed (QtprResponse Float)
  parse_rsp_qtpr mem len response =
      if ltb len 17 then done (negsuc 0, response) else scan_all mem qtpr_slots 3 response

  unfoldable pub parse_rsp_qdi2 : Bytes → ℕ → Qdi2Response Float → Parsed (Qdi2Response Float)
  parse_rsp_qdi2 mem len response =
      if ltb len 13 then done (negsuc 0, response) else scan_all mem qdi2_slots 3 response

  unfoldable pub parse_rsp_qgltv : Bytes → ℕ → HiloVoltageResponse → Parsed HiloVoltageResponse
  parse_rsp_qgltv mem len response =
      if not (len == 7) then done (negsuc 0, response) else scan_all mem hilo_slots 2 response

  unfoldable pub parse_rsp_qdm : Bytes → ℕ → ℕ → Parsed ℕ
  parse_rsp_qdm mem len model =
      if not (len == 3) then done (negsuc 0, model) else scan_all mem qdm_slots 1 model

  unfoldable pub parse_rsp_qchgs : Bytes → ℕ → QchgsResponse Float → Parsed (QchgsResponse Float)
  parse_rsp_qchgs mem len response =
      if not (len == 20) then done (negsuc 0, response) else scan_all mem qchgs_slots 4 response
