-- ===== src/Tests/Data.antt =====
-- Inputs for the runs.
use hologram_nrf9151_gps_tra.Common.{
  ℕ, true, false, [], ◌∷◌, ◌++◌, Option, none, some, pos, negsuc, ok, codes, Bytes, length, ltb,
  if◌then◌else◌,
}
use hologram_nrf9151_gps_tra.Config.{Config, defaults}
use hologram_nrf9151_gps_tra.Wake.{Wake, timer, wake_at_boot}
use hologram_nrf9151_gps_tra.Watchdog.{Watchdog, startup}
use hologram_nrf9151_gps_tra.Motion.{SetupAnswers, motion_at_boot}
use hologram_nrf9151_gps_tra.Power.{ChargerAnswers, EventBits, power_at_boot, discharging}
use hologram_nrf9151_gps_tra.StatusLed.{led_at_boot}
use hologram_nrf9151_gps_tra.Telemetry.{Telemetry, Outside}
use hologram_nrf9151_gps_tra.Gnss
use hologram_nrf9151_gps_tra.Gnss.{Gnss}
use hologram_nrf9151_gps_tra.Gnss.Fix.{TrackerFix, Floats, from_modem, from_external}
use hologram_nrf9151_gps_tra.Gnss.Modem.{Pvt, AgnssFrame, ModemGnss}
use hologram_nrf9151_gps_tra.Gnss.Ext
use hologram_nrf9151_gps_tra.Gnss.Ext.{GnssData, ExtGnss}
use hologram_nrf9151_gps_tra.Agnss
use hologram_nrf9151_gps_tra.Agnss.{Agnss, agnss_at_boot, ModemNumbers}
use hologram_nrf9151_gps_tra.Agnss.ServingCell.{modem_texts}
use hologram_nrf9151_gps_tra.CloudNrf.{Cloud, cloud_at_boot, connected, Keys}
use hologram_nrf9151_gps_tra.Hologram.{Identity, JsonAnswers, SocketAnswers}
use hologram_nrf9151_gps_tra.Transport.{NrfAnswers, nrf_transport}
use hologram_nrf9151_gps_tra.Board.{Platform, Sys, home}
use hologram_nrf9151_gps_tra.Main.Boot.{BootAnswers}

abbrev pub idle_wake : Wake
idle_wake = record { pending = timer; wake_sem = false }

-- A watchdog whose channel 0 is set up.
abbrev pub running_watchdog : Watchdog
running_watchdog = record (startup 0 0) { wdt_channel = pos 0 }

abbrev pub charger : ChargerAnswers
charger = record {
  fetch_err = ok;
  volt_err = ok;
  volt_val1 = pos 3;
  volt_val2 = pos 812500;
  status_err = ok;
  status = 8;
  vbus_err = ok;
  vbus_status = 1;
}

abbrev pub event_bits : EventBits
event_bits = record { detected = 0; removed = 1 }

abbrev pub sensor_answers : SetupAnswers
sensor_answers = record {
  ready = true;
  two_g = record { val1 = pos 19; val2 = pos 613300 };
  scale_err = ok;
  odr_err = ok;
  filter_err = ok;
  threshold_err = ok;
  duration_err = ok;
}

-- Numbers for `double` and `float`.
abbrev pub floats : Floats ℕ ℕ
floats = record {
  double_of = λ z. 0;
  float_of = λ z. 0;
  double_div = λ a b. a;
  float_div = λ a b. a;
  float_mul = λ a b. a;
}

abbrev pub outside : Outside ℕ ℕ
outside = record {
  show_6f = λ d. codes "52.500000";
  show_2f = λ d. codes "1.20";
  build_stamp = codes "2025-01-01T00:00Z";
  hw_revision = codes "rev1";
}

abbrev pub a_fix : TrackerFix ℕ ℕ
a_fix = record {
  latitude = 1;
  longitude = 2;
  altitude = 3;
  accuracy = 4;
  speed = 5;
  heading = 6;
  hdop = 7;
  satellites = 8;
  source = from_modem;
}

abbrev pub a_frame : Pvt ℕ ℕ
a_frame = record {
  latitude = 1;
  longitude = 2;
  altitude = 3;
  accuracy = 4;
  speed = 5;
  heading = 6;
  hdop = 7;
  fix_valid = true;
  sv = true ∷ false ∷ true ∷ [];
}

abbrev pub a_request : AgnssFrame
a_request = record {
  data_flags = 0;
  system_count = 1;
  system_id = 1;
  sv_mask_ephe = 7;
  sv_mask_alm = 7;
}

abbrev pub a_report : GnssData
a_report = record {
  no_fix = false;
  hdop = pos 1200;
  satellites_cnt = 9;
  latitude = pos 1;
  longitude = pos 2;
  altitude = pos 3;
  speed = pos 4;
  bearing = pos 5;
}

abbrev pub idle_modem : ModemGnss ℕ ℕ
idle_modem = record {
  last_pvt = record a_frame { fix_valid = false };
  agnss_req = a_request;
  agnss_req_valid = true;
  fix_sem = false;
  agnss_req_sem = false;
  running = false;
  handler_set = true;
  settings = [];
}

abbrev pub idle_ext : ExtGnss ℕ ℕ
idle_ext = record {
  last_fix = a_fix;
  fix_sem = false;
  powered = false;
  streaming = false;
  calls = [];
}

abbrev pub ext_answers : Gnss.Ext.StartAnswers
ext_answers = record { on_err = ok; uart_err = ok; driver_err = ok; suspend_err = ok; off_err = ok }

abbrev pub idle_gnss : Gnss ℕ ℕ
idle_gnss = record {
  active = from_external;
  external_usable = true;
  modem = idle_modem;
  ext = idle_ext;
}

abbrev pub gnss_answers : Gnss.Answers
gnss_answers = record {
  ext_start = ext_answers;
  modem_err = ok;
  suspend_err = ok;
  off_err = ok;
  stop_err = ok;
}

abbrev pub fetch_answers : Agnss.Answers
fetch_answers = record {
  now = 5000;
  done = 9000;
  cell = modem_texts (255 ∷ []) 3 0x0140e706 0x2bc1 310 410;
  download_err = ok;
  process_err = ok;
  stop_err = ok;
  start_err = ok;
}

abbrev pub modem_numbers : ModemNumbers
modem_numbers = record {
  all_data_flags = 63;
  system_gps = 1;
  sentinels = record { cell_id_max = 0xfffffff; rsrp_invalid = 255 };
}

abbrev pub keys : Keys
keys = record {
  app_id_key = codes "appId";
  msg_type_key = codes "messageType";
  msg_type_data = codes "DATA";
  timestamp_key = codes "ts";
  data_key = codes "data";
  app_id = codes "TRACKER";
}

abbrev pub link_up : Cloud
link_up = record cloud_at_boot { link_state = connected; creds_ok = true; modem_time_ready = true }

abbrev pub identity : Identity
identity = record { device_key = codes "k3y"; topic = codes "gps" }

abbrev pub socket_answers : SocketAnswers
socket_answers = record {
  address_err = ok;
  address_found = true;
  fd = pos 3;
  socket_errno = 1;
  connect_err = ok;
  connect_errno = 1;
  sent = pos 5;
  send_errno = 1;
  rx = pos 5;
  reply = codes "[0,0]";
}

-- Key and data alone, where they fit.
abbrev pub print_short : (k d t : Bytes) (size : ℕ) → Option Bytes
print_short k d t size = if ltb (length (k ++ d)) size then some (k ++ d) else none

abbrev pub json_answers : JsonAnswers
json_answers = record {
  root_made = true;
  topics_made = true;
  key_added = true;
  data_added = true;
  print = print_short;
}

abbrev pub nrf_answers : NrfAnswers
nrf_answers = record {
  credentials = record { check_err = ok; ca = true; ca_aws = true; prv_key = true };
  init_err = ok;
  resume_err = ok;
  at_cmd = λ k. ok;
  connect_err = ok;
  keepopen = true;
  pause_err = ok;
  ts_ms = none;
  send_err = ok;
}

-- Every call takes a second, succeeds, and meets a registered modem.
abbrev pub platform_of : Config → ChargerAnswers → Platform
platform_of c a = record {
  D = ℕ;
  F = ℕ;
  config = c;
  floats = floats;
  outside = outside;
  zero_d = 0;
  zero_f = 0;
  bits = event_bits;
  numbers = modem_numbers;
  transport = nrf_transport defaults keys;
  script = λ n. record {
    elapsed_ms = λ span. 1000;
    interrupts = [];
    err = ok;
    charger = a;
    reg_err = ok;
    reg_status = home;
    rsrp = negsuc 89;
    gnss = gnss_answers;
    ext_during = a_report ∷ [];
    ext_late = [];
    during = [];
    late = [];
    agnss = fetch_answers;
    cloud = nrf_answers;
  };
}

-- On external power, and on battery.
abbrev pub platform : Platform
platform = platform_of defaults charger

abbrev pub battery_platform : Platform
battery_platform = platform_of defaults (record charger { vbus_status = 0 })

-- In a build that publishes without a fix too.
abbrev pub forced_platform : Platform
forced_platform = platform_of (record defaults { force_publish_without_fix = true }) charger

abbrev pub start_of : (c : Config) (a : ChargerAnswers) → Sys (platform_of c a)
start_of c a = record {
  last_send_uptime = 0;
  modem_bounced = false;
  battery_sleeps = 1;
  board = record {
    now_ms = 5000000;
    tick = 0;
    lte_connected_sem = false;
    func_modes = [];
    wake = idle_wake;
    motion = record motion_at_boot { usable = true };
    power = record power_at_boot { registered = true };
    led = record led_at_boot { available = true };
    watchdog = running_watchdog;
    gnss = idle_gnss;
    agnss = agnss_at_boot;
    cloud = link_up;
  };
}

abbrev pub telemetry : Telemetry ℕ ℕ
telemetry = record {
  longitude = 1;
  latitude = 2;
  hdop = 3;
  batt_mv = 3812;
  charge = discharging;
  signal_dbm = negsuc 89;
  awake_s = 42;
  wake = timer;
}

abbrev pub start : Sys platform
start = start_of defaults charger

abbrev pub battery_start : Sys battery_platform
battery_start = start_of defaults (record charger { vbus_status = 0 })

abbrev pub forced_start : Sys forced_platform
forced_start = start_of (record defaults { force_publish_without_fix = true }) charger

-- What the static variables hold at first, over some `.noinit`.
abbrev pub power_on : Sys platform
power_on = record {
  last_send_uptime = 0;
  modem_bounced = false;
  battery_sleeps = 1;
  board = record {
    now_ms = 12;
    tick = 0;
    lte_connected_sem = false;
    func_modes = [];
    wake = wake_at_boot;
    motion = motion_at_boot;
    power = power_at_boot;
    led = led_at_boot;
    watchdog = startup 77 78;
    gnss = record {
      active = from_modem;
      external_usable = false;
      modem = record idle_modem { agnss_req_valid = false; handler_set = false };
      ext = idle_ext;
    };
    agnss = agnss_at_boot;
    cloud = cloud_at_boot;
  };
}

abbrev pub boot_answers : BootAnswers
boot_answers = record {
  modem_lib_err = ok;
  watchdog = record { ready = true; install = ok; setup = ok };
  pmic_ready = true;
  charger_ready = true;
  callback_err = ok;
  motion = sensor_answers;
  leds_ready = true;
  gnss = record {
    handler_err = ok;
    port_ready = true;
    uart_ready = true;
    driver_ready = true;
    pin_err = ok;
    suspend_err = ok;
  };
}
