-- ===== src/Gnss/Race.antt =====
-- The fix that the two backends of app/src/gnss_modem.c and app/src/gnss_ext.c hand back, whenever
-- the events come.
use hologram_nrf9151_gps_tra.Common.{
  ℕ, ◌+◌, ◌<◌, ◌^◌, ◌≡◌, inl, inr, refl, Bool-cases, Bool, true, false, not, ◌&&◌, ◌||◌, List, [],
  ◌∷◌, ◌++◌, ok, eagain, is_err, arith, if◌then◌else◌, length,
}
use hologram_nrf9151_gps_tra.Config.{Config}
use hologram_nrf9151_gps_tra.Gnss.Fix.{TrackerFix, Floats}
use hologram_nrf9151_gps_tra.Gnss.Modem.{
  Pvt, Event, pvt_event, agnss_event, other_event, ModemGnss, deliver, gnss_event_handler,
  gnss_events, count_used, satellites_in_fix, fix_of, gnss_modem_wait_fix,
}
use hologram_nrf9151_gps_tra.Gnss.Ext.{
  GnssData, ExtGnss, fix_from, gnss_data_handler, gnss_reports, gnss_ext_wait_fix,
}

module _ {D F : Type 0} where
  -- The last frame that could be read, or `p`.
  abbrev pub last_read : Pvt D F → List (Event D F) → Pvt D F
  last_read p [] = p
  last_read p (pvt_event err v ∷ es) = last_read (if is_err err then p else v) es
  last_read p (agnss_event err r ∷ es) = last_read p es
  last_read p (other_event ∷ es) = last_read p es

  abbrev is_lock : Event D F → Bool
  is_lock (pvt_event err v) = not (is_err err) && v.fix_valid
  is_lock (agnss_event err r) = false
  is_lock other_event = false

  -- A frame with a valid fix could be read.
  abbrev pub any_lock : List (Event D F) → Bool
  any_lock [] = false
  any_lock (e ∷ es) = is_lock e || any_lock es

  gnss_events-last_read :
      (es : List (Event D F)) (m : ModemGnss D F)
      → m.handler_set ≡ true
      → ((gnss_events es m).last_pvt ≡ last_read m.last_pvt es)
        × ((gnss_events es m).fix_sem ≡ (m.fix_sem || any_lock es))
        × ((gnss_events es m).handler_set ≡ true)
  unfolding gnss_events deliver gnss_event_handler
  gnss_events-last_read [] m e = ground (arith, e)
  gnss_events-last_read (pvt_event err v ∷ es) m e =
      ground (arith, e, gnss_events-last_read es (gnss_event_handler (pvt_event err v) m))
  gnss_events-last_read (agnss_event err r ∷ es) m e =
      ground (arith, e, gnss_events-last_read es (gnss_event_handler (agnss_event err r) m))
  gnss_events-last_read (other_event ∷ es) m e = ground (arith, e, gnss_events-last_read es m)

  -- Without a handler nothing comes through.
  gnss_events-unheard :
      (es : List (Event D F)) (m : ModemGnss D F) → m.handler_set ≡ false → gnss_events es m ≡ m
  unfolding gnss_events deliver
  gnss_events-unheard [] m e = refl
  gnss_events-unheard (v ∷ es) m e = ground (arith, e, gnss_events-unheard es m e)

  last_read-append :
      (p : Pvt D F) (xs ys : List (Event D F))
      → last_read p (xs ++ ys) ≡ last_read (last_read p xs) ys
  last_read-append p [] ys = refl
  last_read-append p (pvt_event err v ∷ xs) ys =
      last_read-append (if is_err err then p else v) xs ys
  last_read-append p (agnss_event err r ∷ xs) ys = last_read-append p xs ys
  last_read-append p (other_event ∷ xs) ys = last_read-append p xs ys

  -- `gnss_modem_wait_fix` succeeds exactly if the handler is registered and a frame with a valid fix
  -- could be read while it waited, whatever came before. The fix is then made from the last frame that
  -- could be read up to the copy, with a valid fix or without. On a time-out, which is certain without
  -- the handler, the caller's fix is untouched.
  pub modem_wait_fix_outcome :
      (during late : List (Event D F)) (out : TrackerFix D F) (m : ModemGnss D F)
      → let (err, fix, _) = gnss_modem_wait_fix during late out m in
        let locked = m.handler_set && any_lock during in
        (err ≡ (if locked then ok else eagain))
        × (fix ≡ (if locked then fix_of (last_read m.last_pvt (during ++ late)) else out))
  unfolding gnss_modem_wait_fix
  modem_wait_fix_outcome during late out m =
      let reset = record m { fix_sem = false } in
      let waited = gnss_events during reset in
      ground (
        arith,
        gnss_events-unheard during reset,
        gnss_events-last_read during reset,
        gnss_events-last_read late (record waited { fix_sem = false }),
        last_read-append m.last_pvt during late,
      )

  -- So a frame without a valid fix that comes between the lock and the copy is handed out as a fix.
  pub modem_wait_fix_unlocked :
      (v i : Pvt D F) (out : TrackerFix D F) (m : ModemGnss D F)
      → v.fix_valid ≡ true
      → i.fix_valid ≡ false
      → m.handler_set ≡ true
      → let (err, fix, _) = gnss_modem_wait_fix (pvt_event ok v ∷ []) (pvt_event ok i ∷ []) out m in
        (err ≡ ok) × (fix ≡ fix_of i)
  modem_wait_fix_unlocked v i out m hv hi hs =
      let h = modem_wait_fix_outcome (pvt_event ok v ∷ []) (pvt_event ok i ∷ []) out m in
      ground (arith, h)

abbrev count_true : List Bool → ℕ
count_true [] = 0
count_true (true ∷ bs) = count_true bs + 1
count_true (false ∷ bs) = count_true bs

count_used_lem :
    (n : ℕ) (sv : List Bool) → n + length sv < 2 ^ 16 → count_used n sv ≡ n + count_true sv
unfolding count_used
count_used_lem n [] h = omega arith
count_used_lem n (true ∷ sv) h = ground (arith, count_used_lem (n + 1) sv)
count_used_lem n (false ∷ sv) h = ground (arith, count_used_lem n sv)

module _ {D F : Type 0} (f : Floats D F) (c : Config) where
  -- The last report with a fix, as a fix, or `p`.
  abbrev pub last_fixed : TrackerFix D F → List GnssData → TrackerFix D F
  last_fixed p [] = p
  last_fixed p (d ∷ ds) = last_fixed (if d.no_fix then p else fix_from f c d) ds

  abbrev pub any_fix : List GnssData → Bool
  any_fix [] = false
  any_fix (d ∷ ds) = not d.no_fix || any_fix ds

  gnss_reports-last_fixed :
      (ds : List GnssData) (x : ExtGnss D F)
      → ((gnss_reports f c ds x).last_fix ≡ last_fixed x.last_fix ds)
        × ((gnss_reports f c ds x).fix_sem ≡ (x.fix_sem || any_fix ds))
  unfolding gnss_reports
  gnss_reports-last_fixed [] x = ground arith
  gnss_reports-last_fixed (d ∷ ds) x =
      ground (arith, gnss_reports-last_fixed ds (gnss_data_handler f c d x))

  last_fixed-append :
      (p : TrackerFix D F) (xs ys : List GnssData)
      → last_fixed p (xs ++ ys) ≡ last_fixed (last_fixed p xs) ys
  last_fixed-append p [] ys = refl
  last_fixed-append p (d ∷ xs) ys = last_fixed-append (if d.no_fix then p else fix_from f c d) xs ys

  last_fixed_any :
      (p q : TrackerFix D F) (ds : List GnssData)
      → any_fix ds ≡ true
      → last_fixed p ds ≡ last_fixed q ds
  last_fixed_any p q [] h = cc
  last_fixed_any p q (d ∷ ds) h = elim (Bool-cases d.no_fix) [
    | inl missed ↦ rw missed (last_fixed_any p q ds (ground arith))
    | inr fixed ↦ rw fixed
  ]

  -- `gnss_ext_wait_fix` succeeds exactly if a report with a fix came while it waited, whatever came
  -- before. The fix is then that of the last report with a fix up to the copy, and does not depend on
  -- what was stored before the wait. On a time-out the caller's fix is untouched.
  pub ext_wait_fix_outcome :
      (during late : List GnssData) (old out : TrackerFix D F) (x : ExtGnss D F)
      → let (err, fix, _) = gnss_ext_wait_fix f c during late out x in
        (err ≡ (if any_fix during then ok else eagain))
        × (fix ≡ (if any_fix during then last_fixed old (during ++ late) else out))
  unfolding gnss_ext_wait_fix
  ext_wait_fix_outcome during late old out x =
      let reset = record x { fix_sem = false } in
      let waited = gnss_reports f c during reset in
      ground (
        arith,
        gnss_reports-last_fixed during reset,
        gnss_reports-last_fixed late (record waited { fix_sem = false }),
        last_fixed-append old during late,
        last_fixed_any x.last_fix old during,
      )

-- The satellite count is the number of satellites used in the fix, as long as the frame lists fewer
-- than 2 ^ 16.
pub satellites_counted :
    {D F : Type 0} (pvt : Pvt D F)
    → length pvt.sv < 2 ^ 16
    → satellites_in_fix pvt ≡ count_true pvt.sv
unfolding satellites_in_fix
satellites_counted pvt h = omega (arith, count_used_lem 0 pvt.sv (omega arith))
