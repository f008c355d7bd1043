-- ===== src/Transport/Contract.antt =====
-- What app/src/cloud.h promises of a transport, as laws that both transports fill and that the report
-- loop of app/src/main.c relies on.
use hologram_nrf9151_gps_tra.Common.{ℕ, ◌≡◌, ◌↔◌, true, ok, Bytes}
use hologram_nrf9151_gps_tra.Watchdog.{Watchdog}
use hologram_nrf9151_gps_tra.Watchdog.Tended.{IsTended}
use hologram_nrf9151_gps_tra.Gnss.Fix.{TrackerFix}
use hologram_nrf9151_gps_tra.Transport.{Transport}

-- `Fresh` holds before `init`, and `Inv` always. A call of `resume` returns 0 exactly if the link
-- can send afterwards, and does nothing where it can already; to the watchdog it does nothing but feed it.
-- Only `resume` makes a link ready, and only `resume` and `pause` change whether it is.
pub record Contract {D F : Type 0} (t : Transport D F) : Type 1 where
  pub Fresh : t.State → Type 0
  pub Inv : t.State → Type 0
  pub at_boot-Fresh : Fresh t.at_boot
  pub Fresh-Inv : (s : t.State) → Fresh s → Inv s
  pub init-Inv : (a : t.Answers) (s : t.State) → Fresh s → Inv (t.init a s).1
  pub resume-Inv : (a : t.Answers) (s : t.State) (w : Watchdog) → Inv s → Inv (t.resume a (s, w)).1
  pub resume_ready :
      (a : t.Answers) (s : t.State) (w : Watchdog)
      → Inv s
      → let (err, u, v) = t.resume a (s, w) in (err ≡ ok) ↔ (t.is_ready u ≡ true)
  pub resume_again :
      (a : t.Answers) (s : t.State) (w : Watchdog)
      → Inv s
      → t.is_ready s ≡ true
      → t.resume a (s, w) ≡ (ok, s, w)
  pub resume-IsTended :
      (bound n : ℕ) (a : t.Answers) (s : t.State) (w : Watchdog)
      → IsTended bound n w
      → IsTended bound n (t.resume a (s, w)).2
  pub pause-Inv : (a : t.Answers) (s : t.State) → Inv s → Inv (t.pause a s)
  pub pause_ready :
      (a : t.Answers) (s : t.State) → t.is_ready (t.pause a s) ≡ true → t.is_ready s ≡ true
  pub send_telemetry-Inv :
      (a : t.Answers) (json : Bytes) (s : t.State) → Inv s → Inv (t.send_telemetry a json s).1
  pub send_telemetry_ready :
      (a : t.Answers) (json : Bytes) (s : t.State)
      → t.is_ready (t.send_telemetry a json s).1 ≡ t.is_ready s
  pub send_location-Inv :
      (a : t.Answers) (fix : TrackerFix D F) (s : t.State) → Inv s → Inv (t.send_location a fix s).1
  pub send_location_ready :
      (a : t.Answers) (fix : TrackerFix D F) (s : t.State)
      → t.is_ready (t.send_location a fix s).1 ≡ t.is_ready s
