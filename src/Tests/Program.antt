-- ===== src/Tests/Program.antt =====
-- Runs of the whole program, of the transports behind the report loop, and of the texts that go in and
-- out of it.
use hologram_nrf9151_gps_tra.Common.{
  ℕ, ◌≤◌, ◌≡◌, ◌≢◌, ◌+◌, ◌⊎◌, ◌↔◌, refl, true, false, none, some, List, [], ◌∷◌, pos, negsuc, ok,
  eio, eacces, arith, codes,
}
use hologram_nrf9151_gps_tra.Config.{defaults}
use hologram_nrf9151_gps_tra.Wake.{timer, wake_reason_name}
use hologram_nrf9151_gps_tra.Gnss.Arbiter.{IsStopped}
use hologram_nrf9151_gps_tra.Agnss.{agnss_fetch_and_inject, Request}
use hologram_nrf9151_gps_tra.Agnss.ServingCell.{
  modem_texts, serving_cell_info_get, serving_cell-modem_texts,
}
use hologram_nrf9151_gps_tra.Agnss.Fetch.{IsRequest, fetch_request}
use hologram_nrf9151_gps_tra.CloudNrf.{cloud_is_ready}
use hologram_nrf9151_gps_tra.CloudNrf.Link.{IsSound}
use hologram_nrf9151_gps_tra.Transport.{nrf_transport}
use hologram_nrf9151_gps_tra.Transport.Contract.{Contract}
use hologram_nrf9151_gps_tra.Transport.Refines.{Op, resume, pause, send, perform_all, Run}
use hologram_nrf9151_gps_tra.Transport.NrfContract.{nrf_contract, nrf_refines}
use hologram_nrf9151_gps_tra.Telemetry.{payload_text, telemetry_battery_percent}
use hologram_nrf9151_gps_tra.Telemetry.ReadBack.{
  IsReadable, read_payload, read_payload-payload_text,
}
use hologram_nrf9151_gps_tra.Telemetry.PostMortem.{reported, post_mortem}
use hologram_nrf9151_gps_tra.Watchdog
use hologram_nrf9151_gps_tra.Watchdog.{
  startup, after_reset, fix as phase_fix, watchdog_init, watchdog_feed, watchdog_phase,
  watchdog_reset_phase,
}
use hologram_nrf9151_gps_tra.Watchdog.Retained.{begin, feed, mark}
use hologram_nrf9151_gps_tra.Main.Boot.{main_start}
use hologram_nrf9151_gps_tra.Main.Cycle.{still_reporting, rebooting}
use hologram_nrf9151_gps_tra.Main.Run.{PoweredOn, in_loop, main}
use hologram_nrf9151_gps_tra.Main.Run.Kept.{main_kept}
use hologram_nrf9151_gps_tra.Watchdog.{timeout_ms}
use hologram_nrf9151_gps_tra.Board.{
  Span, brief, sleep_ms, take_s, receiver_start, connection, message, download,
}
use hologram_nrf9151_gps_tra.Board.Timed.{Limits, limit}
use hologram_nrf9151_gps_tra.Main.Cycle.Timed.{stretch_ms}
use hologram_nrf9151_gps_tra.CloudNrf.Envelope.{telemetry_sent}
use hologram_nrf9151_gps_tra.Main.Run.Fed.{main_fed}
use hologram_nrf9151_gps_tra.Main.Run.Reports.{main_reports}
use hologram_nrf9151_gps_tra.Main.Cycle.Recent.{after_report_ms}
use hologram_nrf9151_gps_tra.Main.Run.Entry.{main_start_outcome}
use hologram_nrf9151_gps_tra.Tests.Data.{
  platform, power_on, forced_platform, forced_start, boot_answers, a_fix, keys, link_up,
  nrf_answers, running_watchdog, modem_numbers, fetch_answers, idle_modem, telemetry, outside,
}
use hologram_nrf9151_gps_tra.Agnss.{agnss_at_boot}

power_on-PoweredOn : PoweredOn platform power_on
power_on-PoweredOn = record {
  last_send_uptime_at_boot = refl;
  modem_bounced_at_boot = refl;
  battery_sleeps_at_boot = refl;
  lte_connected_sem_at_boot = refl;
  wake_at_start = refl;
  motion_at_start = refl;
  power_at_start = refl;
  led_at_start = refl;
  noinit = (77, 78);
  watchdog_at_start = refl;
  active_at_boot = refl;
  external_usable_at_boot = refl;
  streaming_at_boot = refl;
  handler_set_at_boot = refl;
  running_at_boot = refl;
  agnss_at_start = refl;
  cloud_at_start = refl;
}

-- Two passes, with one frequent report each.
main_kept_example :
    let (out, t) = main platform boot_answers 2 1 a_fix power_on in
    let k : Contract {D = ℕ} {F = ℕ} (nrf_transport defaults keys) = nrf_contract defaults keys in
    (t.last_send_uptime ≤ t.board.now_ms)
    × (t.battery_sleeps ≤ 1)
    × k.Inv t.board.cloud
    × (t.board.watchdog.guard_running ≡ false)
    × ((out ≡ in_loop still_reporting) ⊎ IsStopped defaults t.board.gnss)
main_kept_example =
    main_kept platform (nrf_contract defaults keys) (omega arith) (λ n. (refl, refl, refl))
      boot_answers 2 1 a_fix power_on power_on-PoweredOn

main_start_outcome_example :
    let r = (main_start platform boot_answers power_on).0 in
    ((r ≡ none)
      ↔ ((false ≡ false) × ((false ≡ false) ⊎ (true ≡ true)) × (false ≡ true → false ≡ false)))
    × (false ≡ true → r ≡ some ok)
    × (false ≡ false → (r ≡ none) ⊎ (r ≡ some eio))
main_start_outcome_example = main_start_outcome platform boot_answers power_on refl

link_up-IsSound : IsSound defaults link_up
link_up-IsSound = record { up = λ n. (refl, refl) }

-- A report that is refused, a sleep, and the next report.
nrf_refines_example :
    let t = nrf_transport {D = ℕ} {F = ℕ} defaults keys in
    let os : List (Op t) =
      send (record nrf_answers { send_err = eacces }) (codes "{}")
      ∷ pause nrf_answers
      ∷ resume nrf_answers
      ∷ send nrf_answers (codes "{}")
      ∷ [] in
    let (es, u, v) = perform_all t os (link_up, running_watchdog) in
    Run true es (cloud_is_ready defaults u)
unfolding cloud_is_ready
nrf_refines_example =
    nrf_refines defaults keys
      (send (record nrf_answers { send_err = eacces }) (codes "{}")
        ∷ pause nrf_answers
        ∷ resume nrf_answers
        ∷ send nrf_answers (codes "{}")
        ∷ [])
      link_up running_watchdog link_up-IsSound

serving_cell-modem_texts_example :
    let n = modem_numbers.sentinels in
    serving_cell_info_get n
      (modem_texts (255 ∷ []) 3 0x0140e706 0x2bc1 310 410)
      (record { mcc = pos 0; mnc = pos 0; id = 0; tac = 0; rsrp = 0 })
    ≡ (ok, record { mcc = pos 310; mnc = pos 410; id = 0x0140e706; tac = 0x2bc1; rsrp = 255 })
serving_cell-modem_texts_example =
    serving_cell-modem_texts modem_numbers.sentinels (255 ∷ []) 3 0x0140e706 0x2bc1 310 410
      (record { mcc = pos 0; mnc = pos 0; id = 0; tac = 0; rsrp = 0 }) (omega arith) (omega arith)
      (omega arith) (omega arith) (omega arith)

fetch_request_example :
    let (err, m', w', t) =
      agnss_fetch_and_inject defaults modem_numbers fetch_answers
        (idle_modem, running_watchdog, agnss_at_boot) in
    (t.requests ≡ [])
    ⊎ ((r : Request) × (t.requests ≡ r ∷ [])
        × IsRequest defaults modem_numbers fetch_answers idle_modem r)
fetch_request_example =
    fetch_request defaults modem_numbers fetch_answers idle_modem running_watchdog agnss_at_boot

telemetry-IsReadable : IsReadable outside telemetry
telemetry-IsReadable = record {
  longitude_plain = refl;
  latitude_plain = refl;
  hdop_plain = refl;
  volt_bound = omega arith;
  awake_bound = omega arith;
  signal_below = omega arith;
  signal_above = omega arith;
}

abbrev started : Watchdog.StartAnswers
started = record { ready = true; install = pos 0; setup = ok }

read_payload-payload_text_example :
    read_payload (payload_text outside 13 telemetry)
    ≡ some (record {
      longitude = outside.show_6f 1;
      latitude = outside.show_6f 2;
      hdop = outside.show_2f 3;
      batt = 60;
      volt = 3812;
      charge = 0;
      signal = negsuc 89;
      awake = 42;
      wake = codes (wake_reason_name timer);
      wdt = 13;
    })
unfolding telemetry_battery_percent
read_payload-payload_text_example =
    read_payload-payload_text outside 13 telemetry telemetry-IsReadable (omega arith)

-- The run before the reset marked `fix` last.
post_mortem_example :
    let run =
      watchdog_feed (watchdog_phase phase_fix (watchdog_init defaults started (startup 7 7)).1) in
    let phase = watchdog_reset_phase (watchdog_init defaults started (after_reset run)).1 in
    reported (read_payload (payload_text outside phase telemetry)) ≡ some 6
post_mortem_example =
    post_mortem outside telemetry defaults started started (startup 7 7)
      (feed (mark phase_fix begin)) telemetry-IsReadable

-- Generous limits of the calls.
abbrev limits : Limits
limits = record {
  brief_ms = 1000;
  receiver_start_ms = 2000;
  connection_ms = 240000;
  message_ms = 30000;
  download_ms = 180000;
}

limits-timely : (span : Span) → 1000 ≤ limit limits span
limits-timely brief = omega arith
limits-timely (sleep_ms n) = omega arith
limits-timely (take_s n) = omega arith
limits-timely receiver_start = omega arith
limits-timely connection = omega arith
limits-timely message = omega arith
limits-timely download = omega arith

limits-fit : stretch_ms defaults limits ≤ timeout_ms defaults
unfolding timeout_ms
limits-fit = omega arith

main_fed_example :
    (main platform boot_answers 2 1 a_fix power_on).1.board.watchdog.longest_ms
    ≤ timeout_ms defaults
main_fed_example =
    main_fed platform (nrf_contract defaults keys) limits (λ n span. limits-timely span) limits-fit
      boot_answers 2 1 a_fix power_on power_on-PoweredOn

main_reports_example :
    let s = record forced_start { board = record (forced_start.board) { now_ms = 12 } } in
    let (out, t) = main forced_platform boot_answers 2 1 a_fix s in
    (out ≢ in_loop rebooting)
    × (t.board.now_ms ≤ t.last_send_uptime + after_report_ms forced_platform.config limits)
main_reports_example =
    main_reports forced_platform
      (λ n json s h.
        (telemetry_sent defaults keys none ok json s (omega arith) (omega arith) h refl).2.1 refl)
      (λ d. omega arith) (λ f. omega arith) (omega arith) (λ n. (omega arith, omega arith)) refl
      (nrf_contract defaults keys) limits (λ n span. limits-timely span) (λ n. (refl, refl))
      (λ n. refl) (omega arith) boot_answers 2 1 a_fix
      (record forced_start { board = record (forced_start.board) { now_ms = 12 } }) (omega arith)
