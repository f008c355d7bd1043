-- ===== src/Agnss.antt =====
-- app/src/agnss.c and agnss.h: fetching A-GNSS assistance and injecting it into the modem.
pub mod ServingCell
pub mod Fetch
use hologram_nrf9151_gps_tra.Common.{
  ℕ, ◌+◌, ◌-◌, ◌/◌, Bool, true, false, not, ◌&&◌, List, [], ◌∷◌, Option, none, some, ℤ, pos, ok,
  eio, eagain, is_err, is_neg, leb, ◌==◌, if◌then◌else◌,
}
use hologram_nrf9151_gps_tra.Config.{Config}
use hologram_nrf9151_gps_tra.Watchdog.{Watchdog, watchdog_guard_start, watchdog_guard_stop}
use hologram_nrf9151_gps_tra.Gnss.Modem.{
  AgnssFrame, ModemGnss, gnss_modem_start, gnss_modem_stop, gnss_modem_agnss_request_get,
}
use ServingCell.{Cell, Sentinels, CellAnswers, serving_cell_info_get}

-- `struct nrf_cloud_rest_agnss_request`, as far as it varies: no cell stands for a null pointer.
pub record Request : Type 0 where
  pub agnss_req : AgnssFrame
  pub net_info : Option Cell
  pub filtered : Bool
  pub mask_angle : ℕ

-- The static variable, with the requests made, newest first.
pub record Agnss : Type 0 where
  pub last_fetch_uptime_ms : ℕ
  pub requests : List Request

abbrev pub agnss_at_boot : Agnss
agnss_at_boot = record { last_fetch_uptime_ms = 0; requests = [] }

-- Numbers of the modem's library: the six flags of the data items joined, the GPS system,
-- and the marks of absent fields.
pub record ModemNumbers : Type 0 where
  pub all_data_flags : ℕ
  pub system_gps : ℕ
  pub sentinels : Sentinels

unfoldable pub synthesize_request : ModemNumbers → AgnssFrame
synthesize_request n = record {
  data_flags = n.all_data_flags;
  system_count = 1;
  system_id = n.system_gps;
  sv_mask_ephe = 0xffffffff;
  sv_mask_alm = 0xffffffff;
}

unfoldable pub rate_limited : Config → (now : ℕ) → Agnss → Bool
rate_limited c now s =
    let age_s = (now - s.last_fetch_uptime_ms) / 1000 in
    if s.last_fetch_uptime_ms == 0
    then false
    else if leb c.agnss_min_interval_seconds age_s
    then false
    else true

-- What a fetch meets: the uptime at the check of the rate and after the injection, what the modem
-- tells of its cell, and the results of the calls.
pub record Answers : Type 0 where
  pub now : ℕ
  pub done : ℕ
  pub cell : CellAnswers
  pub download_err : ℤ
  pub process_err : ℤ
  pub stop_err : ℤ
  pub start_err : ℤ

-- The cell of `struct lte_lc_cells_info net_info = { 0 }`.
abbrev pub zero_cell : Cell
zero_cell = record { mcc = pos 0; mnc = pos 0; id = 0; tac = 0; rsrp = 0 }

-- The location hint of the request: none if a text could not be read.
unfoldable pub cell_hint : ModemNumbers → CellAnswers → Option Cell
unfolding serving_cell_info_get
cell_hint n a =
    let (err, cell) = serving_cell_info_get n.sentinels a zero_cell in
    if is_err err then none else some cell

module _ {D F : Type 0} (c : Config) (n : ModemNumbers) where
  -- What to ask for, if anything.
  unfoldable pub choose_request : ModemGnss D F → Option AgnssFrame
  unfolding synthesize_request gnss_modem_agnss_request_get
  choose_request m =
      let (valid, req) = gnss_modem_agnss_request_get (synthesize_request n) m in
      if not valid
      then (if not c.agnss_full_request_fallback then none else some (synthesize_request n))
      else if not (req.data_flags == 0)
      then some (record req { data_flags = n.all_data_flags })
      else some req

  unfoldable pub fetch_and_inject : Answers → ModemGnss D F → Agnss → ℤ × Agnss
  unfolding choose_request
  fetch_and_inject a m s = elim (choose_request m) [
    | none ↦ (eagain, s)
    | some req ↦
        let asked = record s {
          requests =
              record {
                agnss_req = req;
                net_info = cell_hint n a.cell;
                filtered = c.agnss_filtered;
                mask_angle = c.agnss_elevation_mask;
              }
              ∷ s.requests;
        } in
        if is_err a.download_err
        then (if is_neg a.download_err then a.download_err else eio, asked)
        else if is_err a.process_err
        then (a.process_err, asked)
        else (ok, record asked { last_fetch_uptime_ms = a.done })
  ]

  unfoldable pub agnss_fetch_and_inject :
      Answers → ModemGnss D F × Watchdog × Agnss → ℤ × ModemGnss D F × Watchdog × Agnss
  unfolding gnss_modem_stop gnss_modem_start
  agnss_fetch_and_inject a (m, w, s) =
      let stopped = c.agnss_stop_gnss_during_fetch in
      let m1 = if stopped then gnss_modem_stop a.stop_err m else m in
      let w1 = watchdog_guard_start c.agnss_budget_seconds w in
      let (err, s1) = fetch_and_inject a m1 s in
      let w2 = watchdog_guard_stop w1 in
      let (start_err, m2) = gnss_modem_start c a.start_err m1 in
      if rate_limited c a.now s
      then (eagain, m, w, s)
      else if stopped
      then (if is_err start_err then eio else err, m2, w2, s1)
      else (err, m1, w2, s1)
