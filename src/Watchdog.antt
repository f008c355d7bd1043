-- ===== src/Watchdog.antt =====
-- app/src/watchdog.c and watchdog.h: the hardware watchdog, the guard that feeds it for a budget, and
-- the phase marker in `.noinit` memory that survives a watchdog reset.
pub mod Guard
pub mod Retained
pub mod Start
pub mod Tended
use Prim.Native.Nat.{max}
use Prim.Native.String.{String}
use hologram_nrf9151_gps_tra.Common.{
  ℕ, ◌+◌, ◌-◌, ◌*◌, Bool, true, false, not, ℤ, pos, negsuc, ok, enodev, is_err, is_neg, ◌==◌,
  if◌then◌else◌, u32, div_round_up,
}
use hologram_nrf9151_gps_tra.Config.{Config}

-- `enum tracker_phase`; its numbers are sent verbatim.
pub data Phase : Type 0 where
  none wake lte cloud_resume gnss_start agnss fix report frequent gnss_stop : Phase
  cloud_pause led_sleep motion_arm sleep no_network : Phase

abbrev pub phase_code : Phase → ℕ
phase_code none = 0
phase_code wake = 1
phase_code lte = 2
phase_code cloud_resume = 3
phase_code gnss_start = 4
phase_code agnss = 5
phase_code fix = 6
phase_code report = 7
phase_code frequent = 8
phase_code gnss_stop = 9
phase_code cloud_pause = 10
phase_code led_sleep = 11
phase_code motion_arm = 12
phase_code sleep = 13
phase_code no_network = 14

-- The static variables, with what the driver was told: `window_max` is the timeout installed,
-- `guard_running` whether the timer `wdt_guard` runs, `feeds` how often `wdt_feed` was called. Once the
-- driver is set up, `unfed_ms` is the time since then or since the last `wdt_feed`, and `longest_ms` the
-- longest that this has been: the hardware resets the device where it passes `window_max`.
pub record Watchdog : Type 0 where
  pub wdt_channel : ℤ
  pub window_max : ℕ
  pub guard_feeds_left : ℕ
  pub guard_running : Bool
  pub phase_magic : ℕ
  pub phase_current : ℕ
  pub phase_at_reset : ℕ
  pub feeds : ℕ
  pub unfed_ms : ℕ
  pub longest_ms : ℕ

-- The variables as the C startup leaves them, over what `.noinit` holds.
unfoldable pub startup : (magic current : ℕ) → Watchdog
startup magic current = record {
  wdt_channel = negsuc 0;
  window_max = 0;
  guard_feeds_left = 0;
  guard_running = false;
  phase_magic = magic;
  phase_current = current;
  phase_at_reset = 0;
  feeds = 0;
  unfed_ms = 0;
  longest_ms = 0;
}

-- A reset that keeps the memory: `.noinit` is not cleared.
unfoldable pub after_reset : Watchdog → Watchdog
unfolding startup
after_reset w = startup w.phase_magic w.phase_current

-- "WDT1".
abbrev pub magic_value : ℕ
magic_value = 0x57445431

abbrev pub guard_period_s : ℕ
guard_period_s = 30

unfoldable pub timeout_ms : Config → ℕ
timeout_ms c = u32 ((c.sleep_seconds + c.watchdog_margin_seconds) * 1000)

unfoldable pub watchdog_feed : Watchdog → Watchdog
watchdog_feed w =
    if not (is_neg w.wdt_channel) then record w { feeds = w.feeds + 1; unfed_ms = 0 } else w

-- Time passes.
unfoldable pub elapse : ℕ → Watchdog → Watchdog
elapse e w =
    if is_neg w.wdt_channel
    then w
    else record w { unfed_ms = w.unfed_ms + e; longest_ms = max w.longest_ms (w.unfed_ms + e) }

unfoldable pub guard_expiry : Watchdog → Watchdog
unfolding watchdog_feed
guard_expiry w =
    if w.guard_feeds_left == 0
    then record w { guard_running = false }
    else watchdog_feed (record w { guard_feeds_left = w.guard_feeds_left - 1 })

-- One period of `wdt_guard`: the timer calls its handler only while it runs.
unfoldable pub guard_period : Watchdog → Watchdog
unfolding guard_expiry
guard_period w = if w.guard_running then guard_expiry w else w

unfoldable pub phase_init : Watchdog → Watchdog
phase_init w =
    let latched =
      if w.phase_magic == magic_value
      then record w { phase_at_reset = w.phase_current }
      else record w { phase_magic = magic_value; phase_at_reset = 0 } in
    record latched { phase_current = 0 }

-- What the driver answers: `device_is_ready`, `wdt_install_timeout` and `wdt_setup`.
pub record StartAnswers : Type 0 where
  pub ready : Bool
  pub install : ℤ
  pub setup : ℤ

unfoldable pub watchdog_init : Config → StartAnswers → Watchdog → ℤ × Watchdog
unfolding phase_init timeout_ms
watchdog_init c a w =
    let s = phase_init w in
    let installed = record s { wdt_channel = a.install; window_max = timeout_ms c } in
    if not a.ready
    then (enodev, s)
    else if is_neg a.install
    then (a.install, installed)
    else if is_err a.setup
    then (a.setup, record installed { wdt_channel = negsuc 0 })
    else (ok, installed)

unfoldable pub watchdog_guard_start : ℕ → Watchdog → Watchdog
unfolding watchdog_feed
watchdog_guard_start budget_s w =
    let fed = watchdog_feed (record w { guard_feeds_left = div_round_up budget_s 29 }) in
    record fed { guard_running = true }

unfoldable pub watchdog_guard_stop : Watchdog → Watchdog
unfolding watchdog_feed
watchdog_guard_stop w = watchdog_feed (record w { guard_running = false })

unfoldable pub watchdog_phase : Phase → Watchdog → Watchdog
watchdog_phase p w = record w { phase_current = phase_code p }

unfoldable pub watchdog_reset_phase : Watchdog → ℕ
watchdog_reset_phase w = w.phase_at_reset

unfoldable pub watchdog_phase_name : ℕ → String
watchdog_phase_name p =
    if p == 1
    then "wake"
    else if p == 2
    then "lte"
    else if p == 3
    then "cloud-resume"
    else if p == 4
    then "gnss-start"
    else if p == 5
    then "agnss"
    else if p == 6
    then "fix"
    else if p == 7
    then "report"
    else if p == 8
    then "frequent-loop"
    else if p == 9
    then "gnss-stop"
    else if p == 10
    then "cloud-pause"
    else if p == 11
    then "led-sleep"
    else if p == 12
    then "motion-arm"
    else if p == 13
    then "sleep"
    else if p == 14
    then "no-network reboot"
    else "none"
