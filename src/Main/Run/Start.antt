-- ===== src/Main/Run/Start.antt =====
-- The start of `main` of app/src/main.c: what holds when its loop begins.
use hologram_nrf9151_gps_tra.Common.{◌≡◌, refl, ap, false, arith}
use hologram_nrf9151_gps_tra.Config.{Config}
use hologram_nrf9151_gps_tra.Watchdog.{Watchdog, StartAnswers, watchdog_init, phase_init, startup}
use hologram_nrf9151_gps_tra.Gnss
use hologram_nrf9151_gps_tra.Gnss.{Gnss, gnss_init}
use hologram_nrf9151_gps_tra.Gnss.Arbiter.{IsStopped}
use hologram_nrf9151_gps_tra.Transport.Contract.{Contract}
use hologram_nrf9151_gps_tra.Board.{
  Span, brief, Platform, Board, Sys, advance, ◌>>=◌, ◌>>◌, pure, call,
}
use hologram_nrf9151_gps_tra.Board.Along.{
  Preorder, Along, bind-Along, then-Along, pure-Along, if-Along,
}
use hologram_nrf9151_gps_tra.Board.Ops.{outside_call}
use hologram_nrf9151_gps_tra.Board.Calm.{advance-Later}
use hologram_nrf9151_gps_tra.Board.Linked.{Linked, advance-cloud, advance-guard, linked_calls}
use hologram_nrf9151_gps_tra.Board.Receivers.{advance-Still, still_calls}
use hologram_nrf9151_gps_tra.Main.{status_led_report}
use hologram_nrf9151_gps_tra.Main.Along.{status_led_report-Along}
use hologram_nrf9151_gps_tra.Main.Sound.{IsSound, Later-IsSound, sound_calls}
use hologram_nrf9151_gps_tra.Main.Boot.{
  BootAnswers, start_watchdog, start_power, start_motion, start_led, init_gnss, init_cloud,
  start_radio, start_drivers, bring_up, main_start,
}
use hologram_nrf9151_gps_tra.Main.Cycle.Receivers.{Stopped, Still-Stopped}
use hologram_nrf9151_gps_tra.Main.Run.{PoweredOn}

init-guard :
    (c : Config) (a : StartAnswers) (w : Watchdog)
    → w.guard_running ≡ false
    → (watchdog_init c a w).1.guard_running ≡ false
unfolding watchdog_init phase_init
init-guard c a w g = ground (arith, g)

init-IsStopped :
    {D F : Type 0} (c : Config) (a : Gnss.InitAnswers) (g : Gnss D F)
    → IsStopped c g
    → IsStopped c (gnss_init c a g).1
unfolding gnss_init
init-IsStopped c a g h = ground (arith, h)

module _ (p : Platform) (k : Contract p.transport) where
  open p use {D, F, config, script, transport}

  -- Before `cloud_init`.
  abbrev pub Prepared : Sys p → Type 0
  Prepared s =
      IsSound p s × (s.board.watchdog.guard_running ≡ false) × k.Fresh s.board.cloud × Stopped p s

  -- From then on.
  abbrev pub Kept : Sys p → Type 0
  Kept s = IsSound p s × Linked p k s × Stopped p s

  Prepared-refl : (s : Sys p) → Prepared s → Prepared s
  Prepared-refl s i = i

  Prepared-trans :
      (s t u : Sys p)
      → (Prepared s → Prepared t)
      → (Prepared t → Prepared u)
      → Prepared s
      → Prepared u
  Prepared-trans s t u f g i = g (f i)

  KeepsPrepared : Preorder p
  KeepsPrepared = record {
    rel = λ s t. Prepared s → Prepared t;
    rel-refl = Prepared-refl;
    rel-trans = Prepared-trans;
  }

  advance-Prepared : (span : Span) (s : Sys p) → Prepared s → Prepared (advance p span s).1
  advance-Prepared span s (i, g, f, h) =
      let t = (advance p span s).1 in
      (
        Later-IsSound p s t (advance-Later p span s) i,
        advance-guard p k span s g,
        rw (advance-cloud p k span s) f,
        Still-Stopped p s t (advance-Still p span s) h,
      )

  tick : (span : Span) → Along p KeepsPrepared (advance p span)
  unfolding KeepsPrepared
  tick span = record { along = advance-Prepared span }

  -- A call that keeps the time and the cloud.
  call-Prepared :
      {A : Type 0} (f : Board p → A × Board p)
      → ((b : Board p)
          → ((f b).1.now_ms ≡ b.now_ms)
            × ((f b).1.cloud ≡ b.cloud)
            × (b.watchdog.guard_running ≡ false → (f b).1.watchdog.guard_running ≡ false)
            × (IsStopped config b.gnss → IsStopped config (f b).1.gnss))
      → Along p KeepsPrepared (call f)
  unfolding call KeepsPrepared
  call-Prepared f e = record {
    along =
        λ s (i, g, r, h). let (n, c, w, x) = e s.board in (ground (arith, i, n), w g, rw c r, x h);
  }

  module _ (a : BootAnswers) where
    start_watchdog-Prepared : Along p KeepsPrepared (start_watchdog p a)
    unfolding start_watchdog
    start_watchdog-Prepared =
        then-Along (tick _)
          (call-Prepared _ (λ b. (refl, refl, init-guard config a.watchdog b.watchdog, λ h. h)))

    start_power-Prepared : Along p KeepsPrepared (start_power p a)
    unfolding start_power
    start_power-Prepared =
        bind-Along (tick _) (λ w. call-Prepared _ (λ b. (refl, refl, λ g. g, λ h. h)))

    start_motion-Prepared : Along p KeepsPrepared (start_motion p a)
    unfolding start_motion
    start_motion-Prepared =
        then-Along (tick _) (call-Prepared _ (λ b. (refl, refl, λ g. g, λ h. h)))

    start_led-Prepared : Along p KeepsPrepared (start_led p a)
    unfolding start_led
    start_led-Prepared = then-Along (tick _) (call-Prepared _ (λ b. (refl, refl, λ g. g, λ h. h)))

    init_gnss-Prepared : Along p KeepsPrepared (init_gnss p a)
    unfolding init_gnss
    init_gnss-Prepared =
        then-Along (tick _)
          (call-Prepared _ (λ b. (refl, refl, λ g. g, init-IsStopped config a.gnss b.gnss)))

    outside_call-Prepared : (span : Span) → Along p KeepsPrepared (outside_call p span)
    unfolding outside_call
    outside_call-Prepared span = bind-Along (tick _) (λ w. pure-Along _)

    start_radio-Prepared : Along p KeepsPrepared (start_radio p a)
    unfolding start_radio
    start_radio-Prepared = bind-Along (outside_call-Prepared _) (λ err. pure-Along _)

    bring_up-Prepared : Along p KeepsPrepared (bring_up p a)
    unfolding bring_up start_drivers
    bring_up-Prepared = then-Along start_watchdog-Prepared (
        then-Along (outside_call-Prepared _) (
          then-Along start_power-Prepared (
            then-Along start_motion-Prepared (
              then-Along start_led-Prepared (
                bind-Along init_gnss-Prepared
                  (λ err. if-Along _ (pure-Along _) start_radio-Prepared))))))

    init_cloud-Kept : (s : Sys p) → Prepared s → Kept (init_cloud p a s).1
    unfolding init_cloud ◌>>=◌ call
    init_cloud-Kept s i =
        let (j, g, f, h) = advance-Prepared brief s i in (j, (k.init-Inv _ _ f, g), h)

    report-Kept : (s : Sys p) → Kept s → Kept (status_led_report p false s).1
    report-Kept s (i, j, h) = (
      (status_led_report-Along (sound_calls p) false).along s i,
      (status_led_report-Along (linked_calls p k) false).along s j,
      Still-Stopped p s (status_led_report p false s).1
          ((status_led_report-Along (still_calls p) false).along s) h,
    )

    Prepared-Kept : (s : Sys p) → Prepared s → Kept s
    Prepared-Kept s (i, g, f, h) = (i, (k.Fresh-Inv _ f, g), h)

    pub main_start-Kept : (s : Sys p) → Prepared s → Kept (main_start p a s).1
    unfolding main_start ◌>>=◌ ◌>>◌ pure KeepsPrepared
    main_start-Kept s i =
        let s1 = (advance p brief s).1 in
        let s2 = (bring_up p a s1).1 in
        let s3 = (init_cloud p a s2).1 in
        let i1 = advance-Prepared brief s i in
        let i2 = bring_up-Prepared.along s1 i1 in
        let i3 = init_cloud-Kept s2 i2 in
        ground (arith, Prepared-Kept s1 i1, Prepared-Kept s2 i2, report-Kept s3 i3)

  -- The state in which the program starts.
  pub PoweredOn-Prepared : (s : Sys p) → PoweredOn p s → Prepared s
  unfolding startup
  PoweredOn-Prepared s o = (
    (ground (arith, o.last_send_uptime_at_boot), ground (arith, o.battery_sleeps_at_boot)),
    ap (λ w. w.guard_running) o.watchdog_at_start,
    rw o.cloud_at_start k.at_boot-Fresh,
    (o.streaming_at_boot, o.running_at_boot),
  )
