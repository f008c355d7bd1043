-- ===== src/Transport/HologramContract.antt =====
-- The contract of app/src/cloud.h for app/src/cloud_hologram.c, which has no session.
use hologram_nrf9151_gps_tra.Common.{◌≡◌, ◌↔◌, true, ok, refl, arith}
use hologram_nrf9151_gps_tra.Config.{Config}
use hologram_nrf9151_gps_tra.Hologram.{Identity, cloud_resume, cloud_is_ready}
use hologram_nrf9151_gps_tra.Transport.{hologram_transport}
use hologram_nrf9151_gps_tra.Transport.Contract.{Contract}

always_ready : (cloud_resume ≡ ok) ↔ (cloud_is_ready ≡ true)
unfolding cloud_resume cloud_is_ready
always_ready = ground arith

pub hologram_contract :
    {D F : Type 0} (c : Config) (i : Identity) → Contract (hologram_transport {D = D} {F = F} c i)
unfolding cloud_resume
hologram_contract c i = record {
  Fresh = λ s. Unit {0};
  Inv = λ s. Unit {0};
  at_boot-Fresh = tt;
  Fresh-Inv = λ s f. tt;
  init-Inv = λ a s f. tt;
  resume-Inv = λ a s w i. tt;
  resume_ready = λ a s w i. always_ready;
  resume_again = λ a s w i' r. refl;
  resume-IsTended = λ bound n a s w t. t;
  pause-Inv = λ a s i. tt;
  pause_ready = λ a s r. r;
  send_telemetry-Inv = λ a json s i. tt;
  send_telemetry_ready = λ a json s. refl;
  send_location-Inv = λ a fix s i. tt;
  send_location_ready = λ a fix s. refl;
}
