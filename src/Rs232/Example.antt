-- ===== src/Rs232/Example.antt =====
-- An output and counters that are all zero.
use es_inverter.Base.{ℕ, false, [], pos, replicate}
use es_inverter.Rs232.Frame.{Counters}
use es_inverter.Rs232.Packet.{Output}
use es_inverter.Rs232.Response.{HiloVoltageResponse}
use es_inverter.Rs232.Scanf.{Scanf}

-- A library whose `sscanf` converts nothing.
abbrev pub libc : Scanf
libc = record { Float = ℕ; sscanf = λ s cs. []; sscanf-Converts = λ s cs. tt }

abbrev pub hilo_voltage : HiloVoltageResponse
hilo_voltage = record { high_voltage = pos 0; low_voltage = pos 0 }

abbrev pub output : Output ℕ
output = record {
  number = 0;
  max_output_power = pos 0;
  model = replicate 16 0;
  rejected = replicate 16 0;
  qid_response = record {
    main_production_type = 0;
    sub_production_type = 0;
    va_type = 0;
    hlv_type = 0;
    year = replicate 3 0;
    month = replicate 3 0;
    manufacturer_id = replicate 5 0;
  };
  qdi2_response = record { max_current = 0; max_voltage = 0; wait_time = 0 };
  qtpr_response = record { boost_temp = 0; inverter_temp = 0; inner_temp = 0 };
  qgof_response = record { high_frequency = 0; low_frequency = 0 };
  qpiri_response = record {
    grid_rating_voltage = 0;
    grid_rating_frequency = 0;
    grid_rating_current = 0;
    ac_output_rating_voltage = 0;
    ac_output_rating_current = 0;
    per_mppt_rating_current = 0;
    battery_rating_voltage = 0;
    mppt_track_number = pos 0;
    machine_type = pos 0;
    topology = pos 0;
  };
  qflag_response = record {
    presence = 0;
    silence_buzzer = false;
    overload_bypass = false;
    power_saving = false;
    lcd_default_page_timeout = false;
    overload_restart = false;
    over_temperature_restart = false;
    backlight_on = false;
    alarm_on_primary_interrupt = false;
    fault_code_record = false;
  };
  qpigs_response = record {
    grid_voltage = 0;
    grid_frequency = 0;
    ac_output_voltage = 0;
    ac_output_frequency = 0;
    ac_output_active_power = pos 0;
    ac_output_appearent_power = pos 0;
    output_load_percent = pos 0;
    bus_voltage = pos 0;
    battery_voltage = 0;
    battery_charging_current = pos 0;
    battery_discharging_current = pos 0;
    battery_voltage_from_scc = 0;
    battery_capacity = pos 0;
    temperature = pos 0;
    pv_input_current = 0;
    pv_input_voltage = 0;
    pv_input_power = pos 0;
    device_status_1 = 0;
    battery_offset = 0;
    eeprom_version = 0;
    device_status_2 = 0;
  };
  hilo_voltage_response = hilo_voltage;
  qchgs_response = record {
    charging_current = 0;
    floating_voltage = 0;
    max_current = 0;
    bulk_voltage = 0;
  };
}

abbrev pub counters : Counters
counters = record { crc_err_cnt = 0; valid_cnt = 0; packet_cnt = 0 }
