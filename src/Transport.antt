-- ===== src/Transport.antt =====
-- app/src/cloud.h: what the report loop asks of a cloud transport, and the two that provide it, one of
-- which is compiled in. `at_boot` is what the static variables of the transport hold at first.
pub mod Contract
pub mod NrfContract
pub mod HologramContract
pub mod Refines
use hologram_nrf9151_gps_tra.Common.{ℕ, Bool, Option, ℤ, Bytes, List, [], ◌++◌}
use hologram_nrf9151_gps_tra.Config.{Config}
use hologram_nrf9151_gps_tra.Watchdog.{Watchdog}
use hologram_nrf9151_gps_tra.Gnss.Fix.{TrackerFix}
use hologram_nrf9151_gps_tra.CloudNrf
use hologram_nrf9151_gps_tra.CloudNrf.{Cloud, Keys, Credentials, cloud_at_boot}
use hologram_nrf9151_gps_tra.Hologram
use hologram_nrf9151_gps_tra.Hologram.{Identity, JsonAnswers, SocketAnswers}

-- `Answers` is what the outside answers to one call.
pub record Transport (D F : Type 0) : Type 1 where
  pub State : Type 0
  pub at_boot : State
  pub Answers : Type 0
  pub init : Answers → State → ℤ × State
  pub resume : Answers → State × Watchdog → ℤ × State × Watchdog
  pub pause : Answers → State → State
  pub is_ready : State → Bool
  pub supports_agnss : Bool
  pub send_telemetry : Answers → Bytes → State → ℤ × State
  pub send_location : Answers → TrackerFix D F → State → ℤ × State

-- What nRF Cloud's library, the modem and the clock answer.
pub record NrfAnswers : Type 0 where
  pub credentials : Credentials
  pub init_err : ℤ
  pub resume_err : ℤ
  pub at_cmd : ℕ → ℤ
  pub connect_err : ℤ
  pub keepopen : Bool
  pub pause_err : ℤ
  pub ts_ms : Option ℕ
  pub send_err : ℤ

abbrev pub nrf_transport : {D F : Type 0} → Config → Keys → Transport D F
nrf_transport c k = record {
  State = Cloud;
  at_boot = cloud_at_boot;
  Answers = NrfAnswers;
  init = λ a s. CloudNrf.cloud_init c a.credentials a.init_err s;
  resume = λ a s. CloudNrf.cloud_resume c a.resume_err a.at_cmd a.connect_err s;
  pause = λ a s. CloudNrf.cloud_pause c a.keepopen a.pause_err s;
  is_ready = λ s. CloudNrf.cloud_is_ready c s;
  supports_agnss = CloudNrf.cloud_supports_agnss;
  send_telemetry = λ a json s. CloudNrf.cloud_send_telemetry c k a.ts_ms a.send_err json s;
  send_location = λ a fix s.
      let (err, message, t) = CloudNrf.cloud_send_location c a.ts_ms a.send_err fix s in (err, t);
}

-- What cJSON and the socket layer answer.
pub record HologramAnswers : Type 0 where
  pub json : JsonAnswers
  pub socket : SocketAnswers

-- The state is the calls of the socket layer, newest first.
abbrev pub hologram_transport : {D F : Type 0} → Config → Identity → Transport D F
hologram_transport c i = record {
  State = List Hologram.Call;
  at_boot = [];
  Answers = HologramAnswers;
  init = λ a s. (Hologram.cloud_init, s);
  resume = λ a (s, w). (Hologram.cloud_resume, s, w);
  pause = λ a s. s;
  is_ready = λ s. Hologram.cloud_is_ready;
  supports_agnss = Hologram.cloud_supports_agnss;
  send_telemetry = λ a json s.
      let (err, calls) = Hologram.cloud_send_telemetry c i a.json a.socket json in
      (err, calls ++ s);
  send_location = λ a fix s. (Hologram.cloud_send_location, s);
}
