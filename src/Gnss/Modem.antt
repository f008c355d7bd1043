-- ===== src/Gnss/Modem.antt =====
-- app/src/gnss_modem.c and gnss_modem.h: the nRF9151's own receiver.
use hologram_nrf9151_gps_tra.Common.{
  ℕ, ◌+◌, Bool, true, false, List, [], ◌∷◌, ℤ, ok, eagain, is_err, if◌then◌else◌, u16,
}
use hologram_nrf9151_gps_tra.Config.{Config}
use hologram_nrf9151_gps_tra.Gnss.Fix.{TrackerFix, from_modem}

-- `struct nrf_modem_gnss_pvt_data_frame`, as far as the code reads it. `fix_valid` is
-- `flags & NRF_MODEM_GNSS_PVT_FLAG_FIX_VALID`, and `sv` holds for each satellite
-- `flags & NRF_MODEM_GNSS_SV_FLAG_USED_IN_FIX`.
pub record Pvt (D F : Type 0) : Type 0 where
  pub latitude : D
  pub longitude : D
  pub altitude : F
  pub accuracy : F
  pub speed : F
  pub heading : F
  pub hdop : F
  pub fix_valid : Bool
  pub sv : List Bool

-- `struct nrf_modem_gnss_agnss_data_frame`: the flags, the number of systems, and of the first
-- system the identifier and the two masks.
pub record AgnssFrame : Type 0 where
  pub data_flags : ℕ
  pub system_count : ℕ
  pub system_id : ℕ
  pub sv_mask_ephe : ℕ
  pub sv_mask_alm : ℕ

-- An event with what `nrf_modem_gnss_read` answers to it.
pub data Event (D F : Type 0) : Type 0 where
  pvt_event : (read_err : ℤ) → Pvt D F → Event D F
  agnss_event : (read_err : ℤ) → AgnssFrame → Event D F
  other_event : Event D F

-- The calls that set the receiver up.
pub data Setting : Type 0 where
  use_case : Setting
  fix_retry fix_interval elevation_threshold : ℕ → Setting

-- The static variables; `running` is the receiver between a successful start and a stop, and
-- `handler_set` whether the modem's library knows the event handler. `settings` are the calls that set the
-- receiver up, newest first.
pub record ModemGnss (D F : Type 0) : Type 0 where
  pub last_pvt : Pvt D F
  pub agnss_req : AgnssFrame
  pub agnss_req_valid : Bool
  pub fix_sem : Bool
  pub agnss_req_sem : Bool
  pub running : Bool
  pub handler_set : Bool
  pub settings : List Setting

-- `uint16_t used`, over the flags of the satellites from the first one on.
unfoldable pub count_used : (used : ℕ) → List Bool → ℕ
count_used used [] = used
count_used used (in_fix ∷ sv) = count_used (if in_fix then u16 (used + 1) else used) sv

module _ {D F : Type 0} where
  unfoldable pub gnss_event_handler : Event D F → ModemGnss D F → ModemGnss D F
  gnss_event_handler (pvt_event read_err pvt) m =
      let stored = record m { last_pvt = pvt } in
      if is_err read_err
      then m
      else if pvt.fix_valid
      then record stored { fix_sem = true }
      else stored
  gnss_event_handler (agnss_event read_err req) m =
      if is_err read_err
      then m
      else record m { agnss_req = req; agnss_req_valid = true; agnss_req_sem = true }
  gnss_event_handler other_event m = m

  -- The library calls the handler that it was given, if any.
  unfoldable pub deliver : Event D F → ModemGnss D F → ModemGnss D F
  deliver e m = if m.handler_set then gnss_event_handler e m else m

  -- Events, the first one first.
  unfoldable pub gnss_events : List (Event D F) → ModemGnss D F → ModemGnss D F
  unfolding deliver
  gnss_events [] m = m
  gnss_events (e ∷ es) m = gnss_events es (deliver e m)

  unfoldable pub gnss_modem_init : (handler_err : ℤ) → ModemGnss D F → ℤ × ModemGnss D F
  gnss_modem_init handler_err m =
      if is_err handler_err then (handler_err, m) else (ok, record m { handler_set = true })

  -- The results of these calls are logged only.
  unfoldable pub set_up : Config → ModemGnss D F → ModemGnss D F
  set_up c m =
      let base = fix_interval 1 ∷ fix_retry 0 ∷ use_case ∷ m.settings in
      record m {
        settings =
            if c.agnss_filtered then elevation_threshold c.agnss_elevation_mask ∷ base else base;
      }

  unfoldable pub gnss_modem_start : Config → (start_err : ℤ) → ModemGnss D F → ℤ × ModemGnss D F
  unfolding set_up
  gnss_modem_start c start_err m =
      let reset = record (set_up c m) { fix_sem = false; agnss_req_sem = false } in
      if is_err start_err then (start_err, reset) else (ok, record reset { running = true })

  unfoldable pub gnss_modem_stop : (stop_err : ℤ) → ModemGnss D F → ModemGnss D F
  gnss_modem_stop stop_err m = if is_err stop_err then m else record m { running = false }

  unfoldable pub satellites_in_fix : Pvt D F → ℕ
  unfolding count_used
  satellites_in_fix pvt = count_used 0 pvt.sv

  unfoldable pub fix_of : Pvt D F → TrackerFix D F
  fix_of pvt = record {
    latitude = pvt.latitude;
    longitude = pvt.longitude;
    altitude = pvt.altitude;
    accuracy = pvt.accuracy;
    speed = pvt.speed;
    heading = pvt.heading;
    hdop = pvt.hdop;
    satellites = satellites_in_fix pvt;
    source = from_modem;
  }

  -- The events while `k_sem_take` waits (`during`; it times out if none of them gives the
  -- semaphore) and between its return and the copy of `last_pvt` (`late`).
  unfoldable pub gnss_modem_wait_fix :
      (during late : List (Event D F))
      → TrackerFix D F
      → ModemGnss D F
      → ℤ × TrackerFix D F × ModemGnss D F
  gnss_modem_wait_fix during late out m =
      let waited = gnss_events during (record m { fix_sem = false }) in
      let copied = gnss_events late (record waited { fix_sem = false }) in
      if waited.fix_sem then (ok, fix_of copied.last_pvt, copied) else (eagain, out, waited)

  unfoldable pub gnss_modem_agnss_request_get : AgnssFrame → ModemGnss D F → Bool × AgnssFrame
  gnss_modem_agnss_request_get out m =
      (m.agnss_req_valid, if m.agnss_req_valid then m.agnss_req else out)

  unfoldable pub gnss_modem_agnss_request_wait :
      (during : List (Event D F)) → ModemGnss D F → ℤ × ModemGnss D F
  unfolding gnss_events
  gnss_modem_agnss_request_wait during m =
      let waited = gnss_events during m in
      if waited.agnss_req_sem
      then (ok, record waited { agnss_req_sem = false })
      else (eagain, waited)
