-- ===== src/Rs232/Response.antt =====
-- rs232_2400_protocol.h: the response structures. `Float` stands for the C type `float`; a `char`
-- array is the list of its bytes.
use es_inverter.Base.{ℕ, Bool, Bytes, ℤ}

pub record QidResponse : Type 0 where
  pub main_production_type : ℕ
  pub sub_production_type : ℕ
  pub va_type : ℕ
  pub hlv_type : ℕ
  pub year : Bytes
  pub month : Bytes
  pub manufacturer_id : Bytes

pub record Qdi2Response (Float : Type 0) : Type 0 where
  pub max_current : Float
  pub max_voltage : Float
  pub wait_time : ℕ

pub record QtprResponse (Float : Type 0) : Type 0 where
  pub boost_temp : Float
  pub inverter_temp : Float
  pub inner_temp : Float

pub record QgofResponse (Float : Type 0) : Type 0 where
  pub high_frequency : Float
  pub low_frequency : Float

pub record QpiriResponse (Float : Type 0) : Type 0 where
  pub grid_rating_voltage : Float
  pub grid_rating_frequency : Float
  pub grid_rating_current : Float
  pub ac_output_rating_voltage : Float
  pub ac_output_rating_current : Float
  pub per_mppt_rating_current : Float
  pub battery_rating_voltage : Float
  pub mppt_track_number : ℤ
  pub machine_type : ℤ
  pub topology : ℤ

pub record QflagResponse : Type 0 where
  pub presence : ℕ
  pub silence_buzzer : Bool
  pub overload_bypass : Bool
  pub power_saving : Bool
  pub lcd_default_page_timeout : Bool
  pub overload_restart : Bool
  pub over_temperature_restart : Bool
  pub backlight_on : Bool
  pub alarm_on_primary_interrupt : Bool
  pub fault_code_record : Bool

pub record QpigsResponse (Float : Type 0) : Type 0 where
  pub grid_voltage : Float
  pub grid_frequency : Float
  pub ac_output_voltage : Float
  pub ac_output_frequency : Float
  pub ac_output_active_power : ℤ
  pub ac_output_appearent_power : ℤ
  pub output_load_percent : ℤ
  pub bus_voltage : ℤ
  pub battery_voltage : Float
  pub battery_charging_current : ℤ
  pub battery_discharging_current : ℤ
  pub battery_voltage_from_scc : Float
  pub battery_capacity : ℤ
  pub temperature : ℤ
  pub pv_input_current : Float
  pub pv_input_voltage : Float
  pub pv_input_power : ℤ
  pub device_status_1 : ℕ
  pub battery_offset : ℕ
  pub eeprom_version : ℕ
  pub device_status_2 : ℕ

pub record HiloVoltageResponse : Type 0 where
  pub high_voltage : ℤ
  pub low_voltage : ℤ

pub record QchgsResponse (Float : Type 0) : Type 0 where
  pub charging_current : Float
  pub floating_voltage : Float
  pub max_current : Float
  pub bulk_voltage : Float
