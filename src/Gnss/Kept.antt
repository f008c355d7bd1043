-- ===== src/Gnss/Kept.antt =====
-- The events and the waits of the two receivers start and stop neither of them.
use hologram_nrf9151_gps_tra.Common.{◌≡◌, refl, false, List, [], ◌∷◌, arith}
use hologram_nrf9151_gps_tra.Gnss.{Gnss}
use hologram_nrf9151_gps_tra.Gnss.Fix.{TrackerFix, Floats}
use hologram_nrf9151_gps_tra.Gnss.Modem.{
  Event, ModemGnss, deliver, gnss_event_handler, gnss_events, gnss_modem_wait_fix,
  gnss_modem_agnss_request_wait,
}
use hologram_nrf9151_gps_tra.Gnss.Ext.{
  GnssData, ExtGnss, gnss_data_handler, gnss_reports, gnss_ext_wait_fix,
}
use hologram_nrf9151_gps_tra.Config.{Config}

module _ {D F : Type 0} where
  abbrev pub SameReceivers : Gnss D F → Gnss D F → Type 0
  SameReceivers g h =
      (h.active ≡ g.active)
      × (h.external_usable ≡ g.external_usable)
      × (h.ext.streaming ≡ g.ext.streaming)
      × (h.modem.running ≡ g.modem.running)

  deliver-running : (e : Event D F) (m : ModemGnss D F) → (deliver e m).running ≡ m.running
  unfolding deliver gnss_event_handler
  deliver-running e m = ground arith

  pub events-running :
      (es : List (Event D F)) (m : ModemGnss D F) → (gnss_events es m).running ≡ m.running
  unfolding gnss_events
  events-running [] m = refl
  events-running (e ∷ es) m = ground (arith, events-running es (deliver e m), deliver-running e m)

  pub handler-streaming :
      (f : Floats D F) (c : Config) (d : GnssData) (x : ExtGnss D F)
      → (gnss_data_handler f c d x).streaming ≡ x.streaming
  unfolding gnss_data_handler
  handler-streaming f c d x = ground arith

  pub reports-streaming :
      (f : Floats D F) (c : Config) (ds : List GnssData) (x : ExtGnss D F)
      → (gnss_reports f c ds x).streaming ≡ x.streaming
  unfolding gnss_reports
  reports-streaming f c [] x = refl
  reports-streaming f c (d ∷ ds) x =
      ground
        (arith, reports-streaming f c ds (gnss_data_handler f c d x), handler-streaming f c d x)

  pub modem_wait-running :
      (during late : List (Event D F)) (out : TrackerFix D F) (m : ModemGnss D F)
      → let (err, fix, n) = gnss_modem_wait_fix during late out m in n.running ≡ m.running
  unfolding gnss_modem_wait_fix
  modem_wait-running during late out m =
      let reset = record m { fix_sem = false } in
      let waited = gnss_events during reset in
      ground (
        arith,
        events-running during reset,
        events-running late (record waited { fix_sem = false }),
      )

  pub request_wait-running :
      (during : List (Event D F)) (m : ModemGnss D F)
      → let (err, n) = gnss_modem_agnss_request_wait during m in n.running ≡ m.running
  unfolding gnss_modem_agnss_request_wait
  request_wait-running during m = ground (arith, events-running during m)

  pub ext_wait-streaming :
      (f : Floats D F) (c : Config) (during late : List GnssData) (out : TrackerFix D F)
      (x : ExtGnss D F)
      → let (err, fix, y) = gnss_ext_wait_fix f c during late out x in y.streaming ≡ x.streaming
  unfolding gnss_ext_wait_fix
  ext_wait-streaming f c during late out x =
      let reset = record x { fix_sem = false } in
      let waited = gnss_reports f c during reset in
      ground (
        arith,
        reports-streaming f c during reset,
        reports-streaming f c late (record waited { fix_sem = false }),
      )
