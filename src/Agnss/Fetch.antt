-- ===== src/Agnss/Fetch.antt =====
-- When app/src/agnss.c goes to the network, what it asks for, and how it leaves the receiver.
use hologram_nrf9151_gps_tra.Common.{
  ℕ, ℤ, List, [], Option, if◌then◌else◌, ◌-◌, ◌*◌, ◌≤◌, ◌<◌, ◌≡◌, refl, ◌≢◌, ◌⊎◌, ◌↔◌, true, false,
  ok, eagain, is_err, arith, Option-cases, inl, inr, some, none, ◌||◌, is_neg, ◌∷◌,
}
use hologram_nrf9151_gps_tra.Config.{Config}
use hologram_nrf9151_gps_tra.Watchdog.{Watchdog, watchdog_guard_start, watchdog_guard_stop}
use hologram_nrf9151_gps_tra.Gnss.Modem.{
  AgnssFrame, ModemGnss, Setting, use_case, fix_retry, fix_interval, elevation_threshold,
  gnss_modem_start, gnss_modem_stop,
}
use hologram_nrf9151_gps_tra.Agnss.{
  Agnss, Answers, ModemNumbers, agnss_fetch_and_inject, rate_limited, choose_request,
  fetch_and_inject, cell_hint, Request, zero_cell, synthesize_request,
}
use hologram_nrf9151_gps_tra.Agnss.ServingCell.{CellAnswers, serving_cell_outcome}

rate_limited_lem :
    (c : Config) (now : ℕ) (s : Agnss)
    → (rate_limited c now s ≡ true) ↔ (
        (s.last_fetch_uptime_ms ≢ 0)
        × (now - s.last_fetch_uptime_ms < c.agnss_min_interval_seconds * 1000))
unfolding rate_limited
rate_limited_lem c now s = ground arith

fetch_lem :
    {D F : Type 0} (c : Config) (n : ModemNumbers) (a : Answers) (m : ModemGnss D F) (s : Agnss)
    → let (err, t) = fetch_and_inject c n a m s in
      (err ≡ ok → t.last_fetch_uptime_ms ≡ a.done)
      × (err ≢ ok → t.last_fetch_uptime_ms ≡ s.last_fetch_uptime_ms)
unfolding fetch_and_inject
fetch_lem c n a m s = elim (Option-cases (choose_request c n m)) [
  | inl e ↦ rw (e, fetch_and_inject) (ground arith)
  | inr (req, e) ↦ rw (e, fetch_and_inject) (ground arith)
]

-- The cell is named exactly if its three texts could be read.
hint_lem :
    (n : ModemNumbers) (a : CellAnswers)
    → (cell_hint n a ≡ none)
      ↔ ((is_neg a.id_err || (is_neg a.area_err || is_neg a.operator_err)) ≡ true)
unfolding cell_hint
hint_lem n a = ground (arith, serving_cell_outcome n.sentinels a zero_cell)

choose_flags :
    {D F : Type 0} (c : Config) (n : ModemNumbers) (m : ModemGnss D F) (req : AgnssFrame)
    → choose_request c n m ≡ some req
    → (req.data_flags ≡ 0) ⊎ (req.data_flags ≡ n.all_data_flags)
unfolding choose_request synthesize_request
choose_flags c n m req e = ground arith

-- The elevation threshold that was set last.
abbrev pub last_mask : List Setting → Option ℕ
last_mask [] = none
last_mask (elevation_threshold angle ∷ rest) = some angle
last_mask (use_case ∷ rest) = last_mask rest
last_mask (fix_retry n ∷ rest) = last_mask rest
last_mask (fix_interval n ∷ rest) = last_mask rest

-- A request for no data item but ephemerides or for all of them, which names the serving cell exactly
-- if the modem told identity, area and operator without an error, and which filters by the elevation
-- that a start of the receiver sets, or not at all.
pub IsRequest :
    {D F : Type 0} (c : Config) (n : ModemNumbers) (a : Answers) (m : ModemGnss D F)
    → Request
    → Type 0
IsRequest c n a m r =
    ((r.agnss_req.data_flags ≡ 0) ⊎ (r.agnss_req.data_flags ≡ n.all_data_flags))
    × ((r.net_info ≡ none)
        ↔ ((is_neg a.cell.id_err || (is_neg a.cell.area_err || is_neg a.cell.operator_err)) ≡ true))
    × (last_mask (gnss_modem_start c a.start_err m).1.settings
        ≡ (if r.filtered then some r.mask_angle else last_mask m.settings))

mask_lem :
    {D F : Type 0} (c : Config) (err : ℤ) (m : ModemGnss D F)
    → last_mask (gnss_modem_start c err m).1.settings
      ≡ (if c.agnss_filtered then some c.agnss_elevation_mask else last_mask m.settings)
unfolding gnss_modem_start
mask_lem c err m = ground arith

request_lem :
    {D F : Type 0} (c : Config) (n : ModemNumbers) (a : Answers) (m m' : ModemGnss D F) (s : Agnss)
    → let (err, t) = fetch_and_inject c n a m s in
      (t.requests ≡ s.requests)
      ⊎ ((r : Request) × (t.requests ≡ r ∷ s.requests) × IsRequest c n a m' r)
unfolding IsRequest fetch_and_inject
request_lem c n a m m' s = elim (Option-cases (choose_request c n m)) [
  | inl e ↦ inl (rw (e, fetch_and_inject) refl)
  | inr (req, e) ↦ inr (
    record {
      agnss_req = req;
      net_info = cell_hint n a.cell;
      filtered = c.agnss_filtered;
      mask_angle = c.agnss_elevation_mask;
    },
    rw (e, fetch_and_inject) (ground arith),
    (choose_flags c n m req e, hint_lem n a.cell, mask_lem c a.start_err m'),
  )
]

module _ {D F : Type 0} (c : Config) (n : ModemNumbers) (a : Answers) (m : ModemGnss D F)
    (w : Watchdog) (s : Agnss) where
  -- The cloud is asked only if nothing was fetched before or the last fetch is the configured interval
  -- ago. Within the interval the call returns -EAGAIN and touches neither the receiver nor the
  -- watchdog nor its own record; and it is the successful fetches whose time is kept.
  pub fetch_spaced :
      let (err, m', w', t) = agnss_fetch_and_inject c n a (m, w, s) in
      (t.requests ≢ s.requests
        → (s.last_fetch_uptime_ms ≡ 0)
          ⊎ (c.agnss_min_interval_seconds * 1000 ≤ a.now - s.last_fetch_uptime_ms))
      × (s.last_fetch_uptime_ms ≢ 0
          → a.now - s.last_fetch_uptime_ms < c.agnss_min_interval_seconds * 1000
          → (err ≡ eagain) × (m' ≡ m) × (w' ≡ w) × (t ≡ s))
      × (err ≡ ok → t.last_fetch_uptime_ms ≡ a.done)
  unfolding agnss_fetch_and_inject
  fetch_spaced = ground (
    arith,
    rate_limited_lem c a.now s,
    fetch_lem c n a m s,
    fetch_lem c n a (gnss_modem_stop a.stop_err m) s,
  )

  -- A call makes one request at most. It asks for no data item but ephemerides or for all of them, it
  -- names the serving cell exactly if the modem told identity, area and operator without an error, and
  -- it filters by the elevation that a start of the receiver sets, or not at all.
  pub fetch_request :
      let (err, m', w', t) = agnss_fetch_and_inject c n a (m, w, s) in
      (t.requests ≡ s.requests)
      ⊎ ((r : Request) × (t.requests ≡ r ∷ s.requests) × IsRequest c n a m r)
  unfolding agnss_fetch_and_inject
  fetch_request =
      ground (arith, request_lem c n a m m s, request_lem c n a (gnss_modem_stop a.stop_err m) m s)

  -- If the receiver ran and no guard was armed, so it is afterwards, whether or not the fetch was made
  -- and whether or not it succeeded, unless the modem refuses the restart.
  pub fetch_receiver :
      m.running ≡ true
      → is_err a.start_err ≡ false
      → w.guard_running ≡ false
      → let (err, m', w', t) = agnss_fetch_and_inject c n a (m, w, s) in
        (m'.running ≡ true) × (w'.guard_running ≡ false)
  unfolding agnss_fetch_and_inject watchdog_guard_start watchdog_guard_stop
  fetch_receiver r e g = ground arith
