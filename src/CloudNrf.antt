-- ===== src/CloudNrf.antt =====
-- app/src/cloud_nrf.c, behind app/src/cloud.h: the link to nRF Cloud over CoAP.
pub mod Link
pub mod ModemTime
pub mod Envelope
use hologram_nrf9151_gps_tra.Common.{
  ℕ, zero, suc, ◌+◌, Bool, true, false, not, ◌&&◌, ◌||◌, List, [], ◌∷◌, ◌++◌, Option, none, some, ℤ,
  ok, eio, eacces, enomem, enotconn, is_err, is_pos, ltb, leb, if◌then◌else◌, Bytes, codes,
  show_nat, snprintf,
}
use hologram_nrf9151_gps_tra.Config.{Config}
use hologram_nrf9151_gps_tra.Watchdog.{Watchdog, watchdog_feed}
use hologram_nrf9151_gps_tra.Gnss.Fix.{TrackerFix}

-- `enum link_state`.
pub data LinkState : Type 0 where
  disconnected connected paused : LinkState

-- Calls of the nRF Cloud library that use the network or the session.
pub data Call : Type 0 where
  coap_init coap_resume coap_connect coap_disconnect coap_pause location_send : Call
  message_send : Bytes → Call

-- The static variables, with the calls made, newest first.
pub record Cloud : Type 0 where
  pub link_state : LinkState
  pub creds_ok : Bool
  pub modem_time_ready : Bool
  pub calls : List Call

abbrev pub cloud_at_boot : Cloud
cloud_at_boot = record {
  link_state = disconnected;
  creds_ok = false;
  modem_time_ready = false;
  calls = [];
}

abbrev pub is_connected : LinkState → Bool
is_connected connected = true
is_connected _ = false

abbrev pub is_paused : LinkState → Bool
is_paused paused = true
is_paused _ = false

abbrev pub log : Call → Cloud → Cloud
log call s = record s { calls = call ∷ s.calls }

unfoldable pub normalize : ℤ → ℤ
normalize err = if is_pos err then eio else err

abbrev pub poll_s : ℕ
poll_s = 3

-- The `for` loop, at `waited` seconds and poll number `k`, whose AT command answers `at_cmd k`.
unfoldable pub time_loop :
    (fuel : ℕ) (wait waited k : ℕ) → (ℕ → ℤ) → Cloud × Watchdog → Cloud × Watchdog
time_loop zero wait waited k at_cmd s = s
time_loop (suc fuel) wait waited k at_cmd (s, w) =
    let next = time_loop fuel wait (waited + poll_s) (k + 1) at_cmd (s, watchdog_feed w) in
    if ltb waited wait
    then (if not (is_err (at_cmd k)) then (record s { modem_time_ready = true }, w) else next)
    else (s, w)

unfoldable pub modem_time_wait : Config → (ℕ → ℤ) → Cloud × Watchdog → Cloud × Watchdog
modem_time_wait c at_cmd (s, w) =
    let waited =
      time_loop (c.modem_time_wait_seconds + 1) c.modem_time_wait_seconds 0 0 at_cmd (s, w) in
    if s.modem_time_ready then (s, w) else waited

-- `nrf_cloud_credentials_check`.
pub record Credentials : Type 0 where
  pub check_err : ℤ
  pub ca : Bool
  pub ca_aws : Bool
  pub prv_key : Bool

unfoldable pub credentials_ok : Credentials → Bool
credentials_ok cs =
    if is_err cs.check_err
    then false
    else if not cs.ca || not cs.ca_aws || not cs.prv_key
    then false
    else true

-- The library's JSON keys and the configured application.
pub record Keys : Type 0 where
  pub app_id_key : Bytes
  pub msg_type_key : Bytes
  pub msg_type_data : Bytes
  pub timestamp_key : Bytes
  pub data_key : Bytes
  pub app_id : Bytes

-- `"key":`
unfoldable pub json_key : Bytes → Bytes
json_key key = codes "\"" ++ (key ++ codes "\":")

unfoldable pub json_text : Bytes → Bytes
json_text value = codes "\"" ++ (value ++ codes "\"")

-- The text of the two formats: with the time in milliseconds, and without it.
unfoldable pub envelope_text : Keys → Option ℕ → (inner_json : Bytes) → Bytes
envelope_text k (some ts_ms) inner_json =
    codes "{"
    ++ (json_key k.app_id_key
        ++ (json_text k.app_id
            ++ (codes ","
                ++ (json_key k.msg_type_key
                    ++ (json_text k.msg_type_data
                        ++ (codes ","
                            ++ (json_key k.timestamp_key
                                ++ (show_nat ts_ms
                                    ++ (codes ","
                                        ++ (json_key k.data_key
                                            ++ (inner_json ++ codes "}")))))))))))
envelope_text k none inner_json =
    codes "{"
    ++ (json_key k.app_id_key
        ++ (json_text k.app_id
            ++ (codes ","
                ++ (json_key k.msg_type_key
                    ++ (json_text k.msg_type_data
                        ++ (codes "," ++ (json_key k.data_key ++ (inner_json ++ codes "}"))))))))

abbrev pub envelope_max : ℕ
envelope_max = 384

-- `struct nrf_cloud_gnss_data` of type PVT; no time stands for `NRF_CLOUD_NO_TIMESTAMP`.
pub record Location (D F : Type 0) : Type 0 where
  pub ts_ms : Option ℕ
  pub lat : D
  pub lon : D
  pub accuracy : F
  pub alt : F
  pub speed : F
  pub heading : F

unfoldable pub location_of : {D F : Type 0} → Option ℕ → TrackerFix D F → Location D F
location_of ts_ms fix = record {
  ts_ms = ts_ms;
  lat = fix.latitude;
  lon = fix.longitude;
  accuracy = fix.accuracy;
  alt = fix.altitude;
  speed = fix.speed;
  heading = fix.heading;
}

module _ (c : Config) where
  unfoldable pub cloud_init : Credentials → (init_err : ℤ) → Cloud → ℤ × Cloud
  unfolding credentials_ok
  cloud_init cs init_err s =
      let latched = record s { creds_ok = credentials_ok cs } in
      if c.skip_lte
      then (ok, s)
      else if c.offline_debug
      then (ok, latched)
      else if not latched.creds_ok
      then (eacces, latched)
      else if is_err init_err
      then (init_err, log coap_init latched)
      else (ok, log coap_init latched)

  -- From `modem_time_wait` on.
  unfoldable pub connect : (ℕ → ℤ) → (connect_err : ℤ) → Cloud × Watchdog → ℤ × Cloud × Watchdog
  connect at_cmd connect_err (s, w) =
      let (s1, w1) = modem_time_wait c at_cmd (s, w) in
      let called = log coap_connect s1 in
      if is_err connect_err
      then (connect_err, record (log coap_disconnect called) { link_state = disconnected }, w1)
      else (ok, record called { link_state = connected }, w1)

  -- What the library and the modem answer.
  unfoldable pub cloud_resume :
      (resume_err : ℤ) (at_cmd : ℕ → ℤ) (connect_err : ℤ) → Cloud × Watchdog → ℤ × Cloud × Watchdog
  cloud_resume resume_err at_cmd connect_err (s, w) =
      let resumed = log coap_resume s in
      if c.skip_lte
      then (enotconn, s, w)
      else if c.offline_debug
      then (ok, record s { link_state = connected }, w)
      else if not s.creds_ok
      then (eacces, s, w)
      else if is_connected s.link_state
      then (ok, s, w)
      else if is_paused s.link_state
      then if not (is_err resume_err)
        then (ok, record resumed { link_state = connected }, w)
        else connect at_cmd connect_err (record resumed { link_state = disconnected }, w)
      else connect at_cmd connect_err (s, w)

  unfoldable pub cloud_pause : (keepopen : Bool) (pause_err : ℤ) → Cloud → Cloud
  cloud_pause keepopen pause_err s =
      let called = log coap_pause s in
      if not (is_connected s.link_state) || c.offline_debug
      then s
      else if not keepopen
      then s
      else if is_err pause_err
      then called
      else record called { link_state = paused }

  unfoldable pub cloud_is_ready : Cloud → Bool
  cloud_is_ready s = is_connected s.link_state

  -- `ts_ms` is what `date_time_now` gives, if it succeeds.
  unfoldable pub cloud_send_telemetry :
      Keys → (ts_ms : Option ℕ) (send_err : ℤ) (inner_json : Bytes) → Cloud → ℤ × Cloud
  unfolding snprintf
  cloud_send_telemetry k ts_ms send_err inner_json s =
      let (len, envelope) = snprintf envelope_max (envelope_text k ts_ms inner_json) in
      if leb envelope_max len
      then (enomem, s)
      else if c.offline_debug
      then (ok, s)
      else (normalize send_err, log (message_send envelope) s)

  -- The result, and the message that the library is handed, if it is called.
  unfoldable pub cloud_send_location :
      {D F : Type 0} (ts_ms : Option ℕ) (send_err : ℤ)
      → TrackerFix D F
      → Cloud
      → ℤ × Option (Location D F) × Cloud
  unfolding location_of
  cloud_send_location ts_ms send_err fix s =
      if not c.portal_location
      then (ok, none, s)
      else if c.offline_debug
      then (ok, none, s)
      else (normalize send_err, some (location_of ts_ms fix), log location_send s)

unfoldable pub cloud_supports_agnss : Bool
cloud_supports_agnss = true
