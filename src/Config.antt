-- ===== src/Config.antt =====
-- The build-time options of app/Kconfig that the code reads, and the two of the nRF Cloud library (with
-- the values of app/prj.conf.example). Numbers are Kconfig `int` options; a
-- Boolean is `IS_ENABLED(CONFIG_...)`. `defaults` has the values of app/Kconfig.
use hologram_nrf9151_gps_tra.Common.{ℕ, Bool, true, false}

pub record Config : Type 0 where
  pub cloud_connect_budget_seconds : ℕ
  pub modem_time_wait_seconds : ℕ
  pub portal_location : Bool
  pub agnss : Bool
  pub agnss_proactive_wait_seconds : ℕ
  pub agnss_fix_timeout_seconds : ℕ
  pub agnss_budget_seconds : ℕ
  pub agnss_min_interval_seconds : ℕ
  pub agnss_stop_gnss_during_fetch : Bool
  pub agnss_full_request_fallback : Bool
  pub agnss_filtered : Bool
  pub agnss_elevation_mask : ℕ
  pub motion_wake : Bool
  pub motion_threshold_mg : ℕ
  pub motion_duration_samples : ℕ
  pub motion_odr_hz : ℕ
  pub motion_hp_cutoff : ℕ
  pub motion_settle_cycles : ℕ
  pub motion_surge_seconds : ℕ
  pub watchdog_margin_seconds : ℕ
  pub sleep_seconds : ℕ
  pub charging_interval_seconds : ℕ
  pub gnss_fix_timeout_seconds : ℕ
  pub gnss_extra_fix_seconds : ℕ
  pub gnss_external : Bool
  pub gnss_ext_warmup_ms : ℕ
  pub gnss_ext_fix_timeout_seconds : ℕ
  pub gnss_ext_uere_meters : ℕ
  pub gnss_ext_power_cycle : Bool
  pub gnss_ext_modem_fallback : Bool
  pub lte_connect_timeout_seconds : ℕ
  pub modem_recovery_minutes : ℕ
  pub reboot_minutes : ℕ
  pub status_led : Bool
  pub led_red_index : ℕ
  pub led_green_index : ℕ
  pub led_blue_index : ℕ
  pub led_blink_ms : ℕ
  pub led_flash_on_ms : ℕ
  pub led_flash_off_ms : ℕ
  pub led_full_percent : ℕ
  pub led_on_battery : Bool
  pub force_publish_without_fix : Bool
  pub skip_lte : Bool
  pub offline_debug : Bool

abbrev pub defaults : Config
defaults = record {
  cloud_connect_budget_seconds = 240;
  modem_time_wait_seconds = 60;
  portal_location = false;
  agnss = true;
  agnss_proactive_wait_seconds = 5;
  agnss_fix_timeout_seconds = 90;
  agnss_budget_seconds = 180;
  agnss_min_interval_seconds = 1800;
  agnss_stop_gnss_during_fetch = true;
  agnss_full_request_fallback = true;
  agnss_filtered = true;
  agnss_elevation_mask = 5;
  motion_wake = true;
  motion_threshold_mg = 350;
  motion_duration_samples = 2;
  motion_odr_hz = 50;
  motion_hp_cutoff = 2;
  motion_settle_cycles = 1;
  motion_surge_seconds = 600;
  watchdog_margin_seconds = 300;
  sleep_seconds = 540;
  charging_interval_seconds = 60;
  gnss_fix_timeout_seconds = 120;
  gnss_extra_fix_seconds = 5;
  gnss_external = true;
  gnss_ext_warmup_ms = 500;
  gnss_ext_fix_timeout_seconds = 60;
  gnss_ext_uere_meters = 3;
  gnss_ext_power_cycle = true;
  gnss_ext_modem_fallback = true;
  lte_connect_timeout_seconds = 120;
  modem_recovery_minutes = 30;
  reboot_minutes = 120;
  status_led = true;
  led_red_index = 0;
  led_green_index = 1;
  led_blue_index = 2;
  led_blink_ms = 500;
  led_flash_on_ms = 50;
  led_flash_off_ms = 1950;
  led_full_percent = 95;
  led_on_battery = false;
  force_publish_without_fix = false;
  skip_lte = false;
  offline_debug = false;
}
