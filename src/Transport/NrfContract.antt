-- ===== src/Transport/NrfContract.antt =====
-- The contract of app/src/cloud.h for app/src/cloud_nrf.c, on links that were allowed to come up.
use hologram_nrf9151_gps_tra.Common.{
  ◌≡◌, ◌↔◌, List, ◌∷◌, true, false, ok, refl, Bool, Option, ℕ, ℤ, Bytes, arith,
}
use hologram_nrf9151_gps_tra.Config.{Config}
use hologram_nrf9151_gps_tra.Watchdog.{Watchdog}
use hologram_nrf9151_gps_tra.Watchdog.Tended.{IsTended}
use hologram_nrf9151_gps_tra.Gnss.Fix.{TrackerFix}
use hologram_nrf9151_gps_tra.CloudNrf.{
  Cloud, Keys, Credentials, disconnected, cloud_init, cloud_resume, cloud_pause, cloud_is_ready,
  cloud_send_telemetry, cloud_send_location, connect, coap_resume,
}
use hologram_nrf9151_gps_tra.CloudNrf.Link.{IsSound, resume_outcome}
use hologram_nrf9151_gps_tra.CloudNrf.ModemTime.{modem_time_wait-Same, modem_time_wait-IsTended}
use hologram_nrf9151_gps_tra.Transport.{nrf_transport}
use hologram_nrf9151_gps_tra.Transport.Contract.{Contract}
use hologram_nrf9151_gps_tra.Transport.Refines.{Op, perform_all, Run, perform_all-Run}

module _ (c : Config) where
  connect-IsSound :
      (at_cmd : ℕ → ℤ) (err : ℤ) (s : Cloud) (w : Watchdog)
      → c.skip_lte ≡ false
      → s.creds_ok ≡ true
      → IsSound c (connect c at_cmd err (s, w)).1
  unfolding connect
  connect-IsSound at_cmd err s w k g = ground (arith, k, g, modem_time_wait-Same c at_cmd s w)

  fresh-IsSound : (s : Cloud) → s.link_state ≡ disconnected → IsSound c s
  fresh-IsSound s f = ground (arith, f)

  init-IsSound :
      (cs : Credentials) (err : ℤ) (s : Cloud)
      → s.link_state ≡ disconnected
      → IsSound c (cloud_init c cs err s).1
  unfolding cloud_init
  init-IsSound cs err s f = ground (arith, f)

  resume-IsSound :
      (resume_err : ℤ) (at_cmd : ℕ → ℤ) (connect_err : ℤ) (s : Cloud) (w : Watchdog)
      → IsSound c s
      → IsSound c (cloud_resume c resume_err at_cmd connect_err (s, w)).1
  unfolding cloud_resume
  resume-IsSound resume_err at_cmd connect_err s w i = ground (
    arith,
    i.up,
    connect-IsSound at_cmd connect_err s w,
    connect-IsSound at_cmd connect_err
        (record s { calls = coap_resume ∷ s.calls; link_state = disconnected }) w,
  )

  connect-IsTended :
      (bound n : ℕ) (at_cmd : ℕ → ℤ) (err : ℤ) (s : Cloud) (w : Watchdog)
      → IsTended bound n w
      → IsTended bound n (connect c at_cmd err (s, w)).2
  unfolding connect
  connect-IsTended bound n at_cmd err s w t =
      ground (arith, modem_time_wait-IsTended c bound n at_cmd s w t)

  resume-IsTended :
      (bound n : ℕ) (resume_err : ℤ) (at_cmd : ℕ → ℤ) (connect_err : ℤ) (s : Cloud) (w : Watchdog)
      → IsTended bound n w
      → IsTended bound n (cloud_resume c resume_err at_cmd connect_err (s, w)).2
  unfolding cloud_resume
  resume-IsTended bound n resume_err at_cmd connect_err s w t = ground (
    arith,
    t,
    connect-IsTended bound n at_cmd connect_err s w t,
    connect-IsTended bound n at_cmd connect_err
        (record s { calls = coap_resume ∷ s.calls; link_state = disconnected }) w t,
  )

  resume_ready_lem :
      (resume_err : ℤ) (at_cmd : ℕ → ℤ) (connect_err : ℤ) (s : Cloud) (w : Watchdog)
      → IsSound c s
      → let (err, t, v) = cloud_resume c resume_err at_cmd connect_err (s, w) in
        (err ≡ ok) ↔ (cloud_is_ready c t ≡ true)
  unfolding cloud_is_ready
  resume_ready_lem resume_err at_cmd connect_err s w i =
      ground (arith, resume_outcome c resume_err at_cmd connect_err s w i)

  resume_again_lem :
      (resume_err : ℤ) (at_cmd : ℕ → ℤ) (connect_err : ℤ) (s : Cloud) (w : Watchdog)
      → IsSound c s
      → cloud_is_ready c s ≡ true
      → cloud_resume c resume_err at_cmd connect_err (s, w) ≡ (ok, s, w)
  unfolding cloud_is_ready cloud_resume
  resume_again_lem resume_err at_cmd connect_err s w i r = ground (arith, i.up, r)

  pause-IsSound :
      (keepopen : Bool) (err : ℤ) (s : Cloud)
      → IsSound c s
      → IsSound c (cloud_pause c keepopen err s)
  unfolding cloud_pause
  pause-IsSound keepopen err s i = ground (arith, i.up)

  pause_ready_lem :
      (keepopen : Bool) (err : ℤ) (s : Cloud)
      → cloud_is_ready c (cloud_pause c keepopen err s) ≡ true
      → cloud_is_ready c s ≡ true
  unfolding cloud_pause cloud_is_ready
  pause_ready_lem keepopen err s r = ground (arith, r)

  send_kept :
      (k : Keys) (ts_ms : Option ℕ) (err : ℤ) (json : Bytes) (s : Cloud)
      → let t = (cloud_send_telemetry c k ts_ms err json s).1 in
        (t.link_state ≡ s.link_state) × (t.creds_ok ≡ s.creds_ok)
  unfolding cloud_send_telemetry
  send_kept k ts_ms err json s = ground arith

  location_kept :
      {D F : Type 0} (ts_ms : Option ℕ) (err : ℤ) (fix : TrackerFix D F) (s : Cloud)
      → let t = (cloud_send_location c ts_ms err fix s).2 in
        (t.link_state ≡ s.link_state) × (t.creds_ok ≡ s.creds_ok)
  unfolding cloud_send_location
  location_kept ts_ms err fix s = ground arith

  kept-IsSound :
      (s t : Cloud)
      → (t.link_state ≡ s.link_state) × (t.creds_ok ≡ s.creds_ok)
      → IsSound c s
      → IsSound c t
  kept-IsSound s t e i = ground (arith, e, i.up)

  kept-ready :
      (s t : Cloud)
      → (t.link_state ≡ s.link_state) × (t.creds_ok ≡ s.creds_ok)
      → cloud_is_ready c t ≡ cloud_is_ready c s
  unfolding cloud_is_ready
  kept-ready s t e = ground (arith, e)

  pub nrf_contract : {D F : Type 0} (k : Keys) → Contract (nrf_transport {D = D} {F = F} c k)
  nrf_contract k = record {
    Fresh = λ s. s.link_state ≡ disconnected;
    Inv = λ s. IsSound c s;
    at_boot-Fresh = refl;
    Fresh-Inv = λ s f. fresh-IsSound s f;
    init-Inv = λ a s f. init-IsSound a.credentials a.init_err s f;
    resume-Inv = λ a s w i. resume-IsSound a.resume_err a.at_cmd a.connect_err s w i;
    resume_ready = λ a s w i. resume_ready_lem a.resume_err a.at_cmd a.connect_err s w i;
    resume_again = λ a s w i r. resume_again_lem a.resume_err a.at_cmd a.connect_err s w i r;
    resume-IsTended =
        λ bound n a s w t. resume-IsTended bound n a.resume_err a.at_cmd a.connect_err s w t;
    pause-Inv = λ a s i. pause-IsSound a.keepopen a.pause_err s i;
    pause_ready = λ a s r. pause_ready_lem a.keepopen a.pause_err s r;
    send_telemetry-Inv = λ a json s i. kept-IsSound s _ (send_kept k a.ts_ms a.send_err json s) i;
    send_telemetry_ready = λ a json s. kept-ready s _ (send_kept k a.ts_ms a.send_err json s);
    send_location-Inv = λ a fix s i. kept-IsSound s _ (location_kept a.ts_ms a.send_err fix s) i;
    send_location_ready = λ a fix s. kept-ready s _ (location_kept a.ts_ms a.send_err fix s);
  }

-- Whatever the library, the modem and the clock answer, any sequence of the calls of app/src/cloud.h on
-- a sound link of app/src/cloud_nrf.c is a run of a link that is ready or not: a resume returns 0 exactly
-- if it ends ready, a ready link always resumes, a pause makes no link ready, and a send or a location
-- message leaves the link as it is.
pub nrf_refines :
    {D F : Type 0} (c : Config) (k : Keys) (os : List (Op (nrf_transport {D = D} {F = F} c k)))
    (s : Cloud) (w : Watchdog)
    → IsSound c s
    → let (es, t, v) = perform_all (nrf_transport c k) os (s, w) in
      Run (cloud_is_ready c s) es (cloud_is_ready c t)
unfolding nrf_contract
nrf_refines c k os s w i = perform_all-Run (nrf_contract c k) os s w i
