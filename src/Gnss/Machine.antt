-- ===== src/Gnss/Machine.antt =====
-- app/src/gnss.h seen from outside: at most one receiver that runs, and the runs of its calls.
use hologram_nrf9151_gps_tra.Common.{
  ◌≡◌, ◌≢◌, ◌⊎◌, ◌↔◌, if◌then◌else◌, inl, inr, refl, Bool-cases, Bool, true, false, not, ◌&&◌, List,
  ◌++◌, [], ◌∷◌, ℤ, ok, enotsup, is_err, arith,
}
use hologram_nrf9151_gps_tra.Config.{Config}
use hologram_nrf9151_gps_tra.Gnss.Fix.{FixSource, from_modem, from_external, TrackerFix, Floats}
use hologram_nrf9151_gps_tra.Gnss.Modem.{Event, fix_of}
use hologram_nrf9151_gps_tra.Gnss.Ext.{GnssData, fix_from, refused}
use hologram_nrf9151_gps_tra.Gnss.{
  Gnss, Answers, gnss_start, gnss_stop, gnss_fallback, gnss_fallback_available, gnss_wait_fix,
}
use hologram_nrf9151_gps_tra.Gnss.Arbiter.{
  Obeys, IsExclusive, IsStopped, start_outcome, fallback_outcome, stop_stops,
}
use hologram_nrf9151_gps_tra.Gnss.Kept.{modem_wait-running, ext_wait-streaming}
use hologram_nrf9151_gps_tra.Gnss.Race.{last_fixed, modem_wait_fix_outcome, ext_wait_fix_outcome}

-- The receiver that runs, if any.
pub data Duty : Type 0 where
  off : Duty
  on : FixSource → Duty

-- What the caller sees of a call: which one it was, the result of those that have one, and of a
-- wait the receiver that made the fix.
pub data Seen : Type 0 where
  seen_start seen_fallback : ℤ → Seen
  seen_stop : Seen
  seen_wait : ℤ → FixSource → Seen

-- One call from a duty to the next.
pub data Step : Duty → Seen → Duty → Type 0 where
  starts : {r : FixSource} → Step off (seen_start ok) (on r)
  start_fails : {err : ℤ} → err ≢ ok → Step off (seen_start err) off
  stops : {d : Duty} → Step d seen_stop off
  falls_back : {d : Duty} → d ≢ on from_modem → Step d (seen_fallback ok) (on from_modem)
  fall_back_fails :
      {d : Duty} {err : ℤ} → d ≢ on from_modem → err ≢ ok → Step d (seen_fallback err) off
  has_no_fallback : {d : Duty} → Step d (seen_fallback enotsup) d
  fixes : {r : FixSource} → Step (on r) (seen_wait ok r) (on r)
  strays : {r : FixSource} → Step off (seen_wait ok r) off
  times_out : {d : Duty} {err : ℤ} {r : FixSource} → err ≢ ok → Step d (seen_wait err r) d

pub data Run : Duty → List Seen → Duty → Type 0 where
  done : {d : Duty} → Run d [] d
  step :
      {d d' d'' : Duty} {e : Seen} {es : List Seen}
      → Step d e d'
      → Run d' es d''
      → Run d (e ∷ es) d''

abbrev running_of : (streaming running : Bool) → Duty
running_of true running = on from_external
running_of false true = on from_modem
running_of false false = off

abbrev pub obeys : Answers → Bool
obeys a =
    not (is_err a.stop_err)
    && (not (refused a.suspend_err) && not (refused a.ext_start.suspend_err))

module _ (D F : Type 0) where
  -- A call with what the hardware answers, and the reports that come while it waits and after that.
  pub data Op : Type 0 where
    start stop fallback : Answers → Op
    wait :
        (ext_during ext_late : List GnssData) (during late : List (Event D F)) → TrackerFix D F → Op

module _ {D F : Type 0} where
  abbrev pub duty : Gnss D F → Duty
  duty g = running_of g.ext.streaming g.modem.running

  -- No start but at first and right after a stop, waits aside, no stop that the modem refuses, and no
  -- suspend that the UART of the external module refuses.
  unfoldable pub in_turn : (may_start : Bool) → List (Op D F) → Bool
  in_turn may_start [] = true
  in_turn may_start (start a ∷ os) = may_start && obeys a && in_turn false os
  in_turn may_start (stop a ∷ os) = obeys a && in_turn true os
  in_turn may_start (fallback a ∷ os) = obeys a && in_turn false os
  in_turn may_start (wait ed el d l out ∷ os) = in_turn may_start os

  module _ (f : Floats D F) (c : Config) where
    unfoldable pub perform : Op D F → Gnss D F → Seen × Gnss D F
    perform (start a) g = let (err, h) = gnss_start c a g in (seen_start err, h)
    perform (stop a) g = (seen_stop, gnss_stop c a g)
    perform (fallback a) g = let (err, h) = gnss_fallback c a g in (seen_fallback err, h)
    perform (wait ed el d l out) g =
        let (err, fix, h) = gnss_wait_fix c f ed el d l out g in (seen_wait err fix.source, h)

    unfoldable pub perform_all : List (Op D F) → Gnss D F → List Seen × Gnss D F
    unfolding perform
    perform_all [] g = ([], g)
    perform_all (o ∷ os) g =
        let (e, h) = perform o g in let (es, k) = perform_all os h in (e ∷ es, k)

start_step :
    (s r s' r' : Bool) (err : ℤ)
    → (s ≡ false) × (r ≡ false)
    → (err ≡ ok → (s' ≡ true) ⊎ (r' ≡ true))
    → (err ≢ ok → (s' ≡ false) × (r' ≡ false))
    → Step (running_of s r) (seen_start err) (running_of s' r')
start_step true r s' r' err i h n = absurd (ground (arith, i))
start_step false true s' r' err i h n = absurd (ground (arith, i))
start_step false false false false err i h n = start_fails (λ e. absurd (ground (arith, h, e)))
start_step false false true r' err i h n = let e : err ≡ ok = ground (arith, n) in rw e starts
start_step false false false true err i h n = let e : err ≡ ok = ground (arith, n) in rw e starts

stop_step :
    (d : Duty) (s' r' : Bool) → (s' ≡ false) × (r' ≡ false) → Step d seen_stop (running_of s' r')
stop_step d false false i = stops
stop_step d true r' i = absurd (ground (arith, i))
stop_step d false true i = absurd (ground (arith, i))

wait_step :
    (s r : Bool) (err : ℤ) (by : FixSource)
    → (err ≡ ok) ⊎ (err ≢ ok)
    → (err ≡ ok → s ≡ true → by ≡ from_external)
    → (err ≡ ok → s ≡ false → r ≡ true → by ≡ from_modem)
    → Step (running_of s r) (seen_wait err by) (running_of s r)
wait_step s r err by (inr n) ext modem = times_out n
wait_step true r err by (inl e) ext modem = rw (ext e refl) (rw e fixes)
wait_step false true err by (inl e) ext modem = rw (modem e refl refl) (rw e fixes)
wait_step false false err by (inl e) ext modem = rw e strays

same_step :
    {e : Seen} (s r s' r' : Bool)
    → s' ≡ s
    → r' ≡ r
    → Step (running_of s r) e (running_of s r)
    → Step (running_of s r) e (running_of s' r')
same_step s r s' r' p q st = rw p (rw q st)

-- From a duty that is not the modem's.
fall_step :
    (d : Duty) (s' r' : Bool) (err : ℤ)
    → d ≢ on from_modem
    → s' ≡ false
    → (err ≡ ok) ↔ (r' ≡ true)
    → Step d (seen_fallback err) (running_of s' r')
fall_step d true r' err n i e = absurd (ground (arith, i))
fall_step d false true err n i e = rw (e.1 refl) (falls_back n)
fall_step d false false err n i e = fall_back_fails n (λ o. absurd (ground (arith, e, o)))

not_modem_lem : (s r : Bool) → r ≡ false → running_of s r ≢ on from_modem
not_modem_lem true r h e = ground (arith, e)
not_modem_lem false true h e = ground (arith, h)
not_modem_lem false false h e = ground (arith, e)

without_step :
    {D F : Type 0} (err : ℤ) (g h : Gnss D F)
    → err ≡ enotsup
    → h ≡ g
    → Step (duty g) (seen_fallback err) (duty h)
without_step err g h e same = rw e (rw same has_no_fallback)

module _ {D F : Type 0} (f : Floats D F) (c : Config) where
  start-Step :
      (a : Answers) (g : Gnss D F)
      → IsStopped c g
      → Obeys a
      → let (err, h) = gnss_start c a g in IsExclusive c h × Step (duty g) (seen_start err) (duty h)
  start-Step a g s o =
      let (x, up, down) = start_outcome c a g s o in
      let h = (gnss_start c a g).1 in
      (
        x,
        start_step g.ext.streaming g.modem.running h.ext.streaming h.modem.running _ s
            (ground (arith, up)) down,
      )

  fallback-Step :
      (a : Answers) (g : Gnss D F)
      → IsExclusive c g
      → Obeys a
      → let (err, h) = gnss_fallback c a g in
        IsExclusive c h × Step (duty g) (seen_fallback err) (duty h)
  unfolding gnss_fallback_available
  fallback-Step a g x e =
      let h = (gnss_fallback c a g).1 in
      let (without, with_one, y) = fallback_outcome c a g x e in
      (
        y,
        elim (Bool-cases (gnss_fallback_available c g)) [
          | inr none ↦ without_step _ g h (without none).0 (without none).1
          | inl one ↦
              let (_, silent, up, _) = with_one one in
              fall_step (duty g) h.ext.streaming h.modem.running _
                (not_modem_lem g.ext.streaming g.modem.running (ground (arith, x, one))) silent up
        ],
      )

  ext_made :
      (p : TrackerFix D F) (ds : List GnssData)
      → p.source ≡ from_external
      → (last_fixed f c p ds).source ≡ from_external
  unfolding fix_from
  ext_made p [] e = e
  ext_made p (d ∷ ds) e = ext_made (if d.no_fix then p else fix_from f c d) ds (ground (arith, e))

  wait-Step :
      (ed el : List GnssData) (d l : List (Event D F)) (out : TrackerFix D F) (g : Gnss D F)
      → IsExclusive c g
      → let (err, fix, h) = gnss_wait_fix c f ed el d l out g in
        IsExclusive c h
        × (IsStopped c g → IsStopped c h)
        × Step (duty g) (seen_wait err fix.source) (duty h)
  unfolding gnss_wait_fix fix_of
  wait-Step ed el d l out g x =
      let old = record out { source = from_external } in
      let e = ext_wait_fix_outcome f c ed el old out g.ext in
      let m = modem_wait_fix_outcome d l out g.modem in
      let h = (gnss_wait_fix c f ed el d l out g).2 in
      let s = ext_wait-streaming f c ed el out g.ext in
      let r = modem_wait-running d l out g.modem in
      (
        ground (arith, x, s, r),
        λ i. ground (arith, i, s, r),
        same_step g.ext.streaming g.modem.running h.ext.streaming h.modem.running
            (ground (arith, s)) (ground (arith, r))
            (wait_step g.ext.streaming g.modem.running _ _ (ground (arith, e, m))
              (ground (arith, x, e, ext_made old (ed ++ el) refl)) (ground (arith, x, m))),
      )

  stop-Step :
      (a : Answers) (g : Gnss D F)
      → IsExclusive c g
      → Obeys a
      → let h = gnss_stop c a g in IsStopped c h × Step (duty g) seen_stop (duty h)
  stop-Step a g x e =
      let h = gnss_stop c a g in
      let i = stop_stops c a g x e in (i, stop_step (duty g) h.ext.streaming h.modem.running i)

  stopped-IsExclusive : (g : Gnss D F) → IsStopped c g → IsExclusive c g
  stopped-IsExclusive g s = ground (arith, s)

  -- Any sequence of starts, waits, fallbacks and stops of app/src/gnss.h, whatever the hardware answers
  -- and whenever the receivers report, is a run of a machine with at most one receiver on duty, the active
  -- one: a start that returns 0 puts one on duty and any other none; a fallback is refused with -ENOTSUP
  -- and changes nothing, or, where the modem is not on duty yet, puts the modem on duty if it returns 0 and
  -- none otherwise; a wait changes nothing, and the fix of a successful one is of the receiver on duty, if
  -- there is one; a stop ends the duty. This holds where only the active receiver runs at first, no
  -- receiver is started but at first, with both off, or after a stop, waits aside, the modem does not
  -- refuse a stop, and the UART of the external module does not refuse a suspend.
  pub gnss_refines :
      (os : List (Op D F)) (may_start : Bool) (g : Gnss D F)
      → IsExclusive c g
      → (may_start ≡ true → IsStopped c g)
      → in_turn may_start os ≡ true
      → let (es, h) = perform_all f c os g in IsExclusive c h × Run (duty g) es (duty h)
  unfolding perform_all in_turn
  gnss_refines [] may_start g x s t = (x, done)
  gnss_refines (start a ∷ os) may_start g x s t =
      let (y, st) = start-Step a g (s (ground (arith, t))) (ground (arith, t)) in
      let (z, run) =
        gnss_refines os false (gnss_start c a g).1 y (λ e. absurd (ground (arith, e)))
          (ground (arith, t)) in
      (z, step st run)
  gnss_refines (stop a ∷ os) may_start g x s t =
      let (i, st) = stop-Step a g x (ground (arith, t)) in
      let h = gnss_stop c a g in
      let (z, run) =
        gnss_refines os true h (stopped-IsExclusive h i) (λ e. i) (ground (arith, t)) in
      (z, step st run)
  gnss_refines (fallback a ∷ os) may_start g x s t =
      let (y, st) = fallback-Step a g x (ground (arith, t)) in
      let (z, run) =
        gnss_refines os false (gnss_fallback c a g).1 y (λ e. absurd (ground (arith, e)))
          (ground (arith, t)) in
      (z, step st run)
  gnss_refines (wait ed el d l out ∷ os) may_start g x s t =
      let (y, kept, st) = wait-Step ed el d l out g x in
      let h = (gnss_wait_fix c f ed el d l out g).2 in
      let (z, run) = gnss_refines os may_start h y (λ e. kept (s e)) t in (z, step st run)
