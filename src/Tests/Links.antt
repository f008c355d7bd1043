-- ===== src/Tests/Links.antt =====
-- Runs of the two cloud transports.
use hologram_nrf9151_gps_tra.Common.{
  ◌≤◌, ◌<◌, ◌≡◌, ◌≢◌, ◌↔◌, ◌⊎◌, refl, true, false, [], ◌∷◌, ◌++◌, none, some, ok, eacces, is_neg,
  is_pos, arith, codes, length, take,
}
use hologram_nrf9151_gps_tra.Config.{defaults}
use hologram_nrf9151_gps_tra.CloudNrf.{
  disconnected, connected, paused, coap_resume, message_send, cloud_at_boot, cloud_resume,
  cloud_send_telemetry, modem_time_wait,
}
use hologram_nrf9151_gps_tra.CloudNrf.Link.{IsSound, resume_outcome, stale_link_kept}
use hologram_nrf9151_gps_tra.CloudNrf.ModemTime.{polls, modem_time_wait-polls}
use hologram_nrf9151_gps_tra.CloudNrf.Envelope.{head_text, telemetry_sent}
use hologram_nrf9151_gps_tra.Hologram.{
  build_envelope, hologram_send, socket_send_envelope, is_default_key,
}
use hologram_nrf9151_gps_tra.Hologram.Socket.{
  opens, closes, frees, sends, goes_out, socket_balanced,
}
use hologram_nrf9151_gps_tra.Hologram.Send.{PrintsWithin, AllGood, hologram_send_outcome}
use hologram_nrf9151_gps_tra.Tests.Data.{
  keys, link_up, identity, json_answers, socket_answers, running_watchdog,
}

link_paused_IsSound : IsSound defaults (record link_up { link_state = paused })
link_paused_IsSound = record { up = λ n. (refl, refl) }

resume_outcome_example :
    let s = record link_up { link_state = paused } in
    let (err, t, v) = cloud_resume defaults ok (λ k. ok) ok (s, running_watchdog) in
    ((err ≡ ok) ↔ (t.link_state ≡ connected))
    × (paused ≡ connected → (t.link_state ≡ connected) × (t.calls ≡ []) × (v ≡ running_watchdog))
    × (paused ≡ paused → false ≡ false → false ≡ false → t.calls ≡ coap_resume ∷ [])
    × (true ≡ false → false ≡ false → (t ≡ s) × (err ≢ ok))
    × (err ≢ ok → (t.link_state ≡ paused) ⊎ (t.link_state ≡ disconnected))
resume_outcome_example =
    resume_outcome defaults ok (λ k. ok) ok (record link_up { link_state = paused })
      running_watchdog link_paused_IsSound

stale_link_kept_example :
    let t = (cloud_send_telemetry defaults keys none eacces (codes "{}") link_up).1 in
    cloud_resume defaults ok (λ k. ok) ok (t, running_watchdog) ≡ (ok, t, running_watchdog)
stale_link_kept_example =
    stale_link_kept defaults keys none eacces (codes "{}") ok (λ k. ok) ok link_up running_watchdog
      refl refl refl refl

modem_time_wait-polls_example :
    modem_time_wait defaults (λ k. ok) (cloud_at_boot, running_watchdog)
    ≡ polls 20 0 (λ k. ok) (cloud_at_boot, running_watchdog)
modem_time_wait-polls_example =
    modem_time_wait-polls defaults (λ k. ok) cloud_at_boot running_watchdog

telemetry_sent_example :
    let (err, t) =
      cloud_send_telemetry defaults keys (some 1700000000000) ok (codes "{}") link_up in
    (t.calls ≡ message_send (head_text keys (some 1700000000000) ++ (codes "{}" ++ codes "}")) ∷ [])
    × (t.link_state ≡ connected)
    × ((err ≡ ok) ↔ (ok ≡ ok))
    × (is_pos err ≡ false)
telemetry_sent_example =
    telemetry_sent defaults keys (some 1700000000000) ok (codes "{}") link_up (omega arith)
      (omega arith) (omega arith) refl

socket_balanced_example :
    let calls = (socket_send_envelope socket_answers (codes "{}")).1 in
    (frees calls ≡ 1) × (closes calls ≡ opens calls) × (opens calls ≡ 1)
socket_balanced_example = socket_balanced socket_answers (codes "{}")

json_PrintsWithin : PrintsWithin json_answers
json_PrintsWithin k d t size text e = ground (arith, e)

hologram_send_outcome_example :
    let (len, envelope) = build_envelope identity json_answers (codes "{}") 512 in
    let (err, calls) = hologram_send defaults identity json_answers socket_answers (codes "{}") in
    ((err ≡ ok) ↔ (
      (is_neg len ≡ false)
      × ((false ≡ true) ⊎ ((is_default_key (codes "k3y") ≡ false) × AllGood socket_answers))))
    × (calls ≢ []
        → (length envelope < 512) × (is_default_key (codes "k3y") ≡ false) × (false ≡ false))
    × (err ≡ ok
        → false ≡ false
        → (sends calls ≡ envelope ∷ [])
          × (goes_out calls ≡ take 5 envelope ∷ [])
          × (length envelope ≤ 5 → goes_out calls ≡ envelope ∷ []))
hologram_send_outcome_example =
    hologram_send_outcome defaults identity json_answers socket_answers (codes "{}") (omega arith)
      json_PrintsWithin
