-- ===== src/CloudNrf/Link.antt =====
-- The link of app/src/cloud_nrf.c: what its state says, and when it hands over the network.
use hologram_nrf9151_gps_tra.Common.{
  ℕ, ◌≡◌, ◌≢◌, ◌↔◌, ◌⊎◌, true, false, ◌||◌, ◌∷◌, Option, ℤ, ok, is_err, arith, if◌then◌else◌, Bytes,
}
use hologram_nrf9151_gps_tra.Config.{Config}
use hologram_nrf9151_gps_tra.Watchdog.{Watchdog}
use hologram_nrf9151_gps_tra.CloudNrf.{
  disconnected, connected, paused, coap_resume, coap_connect, coap_disconnect, Cloud, connect,
  cloud_resume, Keys, cloud_send_telemetry,
}
use hologram_nrf9151_gps_tra.CloudNrf.ModemTime.{modem_time_wait-Same}

-- A link that is up or paused was allowed to come up.
pub record IsSound (c : Config) (s : Cloud) : Type 0 where
  pub up :
      s.link_state ≢ disconnected → (c.skip_lte ≡ false) × (s.creds_ok || c.offline_debug ≡ true)

-- `connect` leaves the link up exactly if it returns 0.
connect_lem :
    (c : Config) (at_cmd : ℕ → ℤ) (err : ℤ) (s : Cloud) (w : Watchdog)
    → let (r, t, _) = connect c at_cmd err (s, w) in
      ((r ≡ ok) ↔ (t.link_state ≡ connected))
      × (r ≢ ok → t.link_state ≡ disconnected)
      × (t.creds_ok ≡ s.creds_ok)
      × (t.calls ≡ (
          if is_err err then coap_disconnect ∷ coap_connect ∷ s.calls else coap_connect ∷ s.calls))
unfolding connect
connect_lem c at_cmd err s w = ground (arith, modem_time_wait-Same c at_cmd s w)

-- `cloud_resume` from a sound link, whatever the library and the modem answer. It returns 0 exactly
-- if the link is up afterwards. A link that is up is left alone, with no call. A paused link that the
-- library resumes costs that one call and no handshake. Without credentials (in a build that sends)
-- there is no call at all. And after an error the link is either as it was or disconnected.
pub resume_outcome :
    (c : Config) (resume_err : ℤ) (at_cmd : ℕ → ℤ) (connect_err : ℤ) (s : Cloud) (w : Watchdog)
    → IsSound c s
    → let (err, t, v) = cloud_resume c resume_err at_cmd connect_err (s, w) in
      ((err ≡ ok) ↔ (t.link_state ≡ connected))
      × (s.link_state ≡ connected → (t.link_state ≡ connected) × (t.calls ≡ s.calls) × (v ≡ w))
      × (s.link_state ≡ paused
          → c.offline_debug ≡ false
          → is_err resume_err ≡ false
          → t.calls ≡ coap_resume ∷ s.calls)
      × (s.creds_ok ≡ false → c.offline_debug ≡ false → (t ≡ s) × (err ≢ ok))
      × (err ≢ ok → (t.link_state ≡ s.link_state) ⊎ (t.link_state ≡ disconnected))
unfolding cloud_resume
resume_outcome c resume_err at_cmd connect_err s w i = ground (
  arith,
  connect_lem c at_cmd connect_err s w,
  connect_lem c at_cmd connect_err
      (record s { calls = coap_resume ∷ s.calls; link_state = disconnected }) w,
)

-- Once the link is up, a send leaves it up whatever it answers, also where the answer says that the
-- link is stale (-EACCES, -ENOTCONN): the `cloud_resume` after it then returns 0 without any call of
-- the library, so that the session is not renewed. (In a build that may use the network, with the
-- credentials there.)
pub stale_link_kept :
    (c : Config) (k : Keys) (ts_ms : Option ℕ) (send_err : ℤ) (json : Bytes) (resume_err : ℤ)
    (at_cmd : ℕ → ℤ) (connect_err : ℤ) (s : Cloud) (w : Watchdog)
    → s.link_state ≡ connected
    → s.creds_ok ≡ true
    → c.skip_lte ≡ false
    → c.offline_debug ≡ false
    → let t = (cloud_send_telemetry c k ts_ms send_err json s).1 in
      cloud_resume c resume_err at_cmd connect_err (t, w) ≡ (ok, t, w)
unfolding cloud_resume cloud_send_telemetry
stale_link_kept c k ts_ms send_err json resume_err at_cmd connect_err s w l cr sk o =
    ground (arith, l, cr, sk, o)
