-- ===== src/Tests/Receivers.antt =====
-- Runs of the receivers' models, and of the assistance.
use hologram_nrf9151_gps_tra.Common.{
  ℕ, ◌-◌, ◌*◌, ◌≤◌, ◌<◌, ◌≡◌, ◌≢◌, ◌⊎◌, refl, true, false, List, [], ◌∷◌, ok, eagain, arith,
}
use hologram_nrf9151_gps_tra.Config.{defaults}
use hologram_nrf9151_gps_tra.Gnss.Modem.{pvt_event, fix_of, gnss_modem_wait_fix}
use hologram_nrf9151_gps_tra.Gnss.Ext.{fix_from, gnss_ext_wait_fix}
use hologram_nrf9151_gps_tra.Gnss.Race.{modem_wait_fix_outcome, ext_wait_fix_outcome}
use hologram_nrf9151_gps_tra.Gnss.PowerCut.{start, stop}
use hologram_nrf9151_gps_tra.Gnss.Arbiter.{IsExclusive}
use hologram_nrf9151_gps_tra.Gnss.Machine.{
  Op, duty, in_turn, off, Run, start as call_start, stop as call_stop, wait, fallback, perform_all,
  gnss_refines,
}
use hologram_nrf9151_gps_tra.Agnss.{agnss_fetch_and_inject, agnss_at_boot}
use hologram_nrf9151_gps_tra.Agnss.Fetch.{fetch_spaced}
use hologram_nrf9151_gps_tra.Tests.Data.{
  floats, a_fix, a_frame, a_report, idle_modem, idle_ext, idle_gnss, gnss_answers, fetch_answers,
  modem_numbers, running_watchdog,
}

-- An invalid frame behind the lock is what comes back.
modem_wait_fix_outcome_example :
    let (err, fix, _) =
      gnss_modem_wait_fix
        (pvt_event ok a_frame ∷ [])
        (pvt_event ok (record a_frame { fix_valid = false }) ∷ [])
        a_fix
        idle_modem in
    (err ≡ ok) × (fix ≡ fix_of (record a_frame { fix_valid = false }))
modem_wait_fix_outcome_example =
    modem_wait_fix_outcome (pvt_event ok a_frame ∷ [])
      (pvt_event ok (record a_frame { fix_valid = false }) ∷ []) a_fix idle_modem

ext_wait_fix_outcome_example :
    let missed = record a_report { no_fix = true } in
    let (err, fix, _) =
      gnss_ext_wait_fix floats defaults (missed ∷ a_report ∷ []) (missed ∷ []) a_fix idle_ext in
    (err ≡ ok) × (fix ≡ fix_from floats defaults a_report)
ext_wait_fix_outcome_example =
    ext_wait_fix_outcome floats defaults (record a_report { no_fix = true } ∷ a_report ∷ [])
      (record a_report { no_fix = true } ∷ []) a_fix a_fix idle_ext

idle-IsExclusive : IsExclusive defaults idle_gnss
idle-IsExclusive = (λ e. absurd (ground arith), λ e. absurd (ground arith))

-- The external module reports nothing in its window, and the modem takes over.
abbrev takeover : List (Op ℕ ℕ)
takeover =
    call_start gnss_answers
    ∷ wait [] [] [] [] a_fix
    ∷ fallback gnss_answers
    ∷ wait [] [] (pvt_event ok a_frame ∷ []) [] a_fix
    ∷ call_stop gnss_answers
    ∷ []

gnss_refines_example :
    let (es, h) = perform_all floats defaults takeover idle_gnss in
    IsExclusive defaults h × Run off es (duty h)
unfolding in_turn
gnss_refines_example =
    gnss_refines floats defaults takeover true idle_gnss idle-IsExclusive (λ e. (refl, refl)) refl

-- 4 seconds after a fetch.
fetch_spaced_example :
    let s = record agnss_at_boot { last_fetch_uptime_ms = 1000 } in
    let (err, m', w', t) =
      agnss_fetch_and_inject defaults modem_numbers fetch_answers
        (idle_modem, running_watchdog, s) in
    (t.requests ≢ [] → (s.last_fetch_uptime_ms ≡ 0) ⊎ (1800 * 1000 ≤ 5000 - 1000))
    × (s.last_fetch_uptime_ms ≢ 0
        → 5000 - 1000 < 1800 * 1000
        → (err ≡ eagain) × (m' ≡ idle_modem) × (w' ≡ running_watchdog) × (t ≡ s))
    × (err ≡ ok → t.last_fetch_uptime_ms ≡ 9000)
fetch_spaced_example =
    fetch_spaced defaults modem_numbers fetch_answers idle_modem running_watchdog
      (record agnss_at_boot { last_fetch_uptime_ms = 1000 })
