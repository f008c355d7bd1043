-- ===== src/Transport/Refines.antt =====
-- A transport behind app/src/cloud.h seen from outside: a link that is ready or not, and its runs.
use hologram_nrf9151_gps_tra.Common.{
  ◌≡◌, ◌≢◌, refl, ap, Bool, true, false, List, [], ◌∷◌, ℤ, ok, arith, Bytes,
}
use hologram_nrf9151_gps_tra.Watchdog.{Watchdog}
use hologram_nrf9151_gps_tra.Gnss.Fix.{TrackerFix}
use hologram_nrf9151_gps_tra.Transport.{Transport}
use hologram_nrf9151_gps_tra.Transport.Contract.{Contract}

-- What the caller sees of a call: which one it was, and the result of those that have one.
pub data Seen : Type 0 where
  seen_resume seen_send seen_locate : ℤ → Seen
  seen_pause : Seen

-- One call on a link that is ready or not, and whether it is ready afterwards.
pub data Step : Bool → Seen → Bool → Type 0 where
  comes_up : {r : Bool} → Step r (seen_resume ok) true
  stays_down : {err : ℤ} → err ≢ ok → Step false (seen_resume err) false
  pauses : {r r' : Bool} → (r' ≡ true → r ≡ true) → Step r seen_pause r'
  sends : {r : Bool} {err : ℤ} → Step r (seen_send err) r
  locates : {r : Bool} {err : ℤ} → Step r (seen_locate err) r

pub data Run : Bool → List Seen → Bool → Type 0 where
  done : {r : Bool} → Run r [] r
  step :
      {r r' r'' : Bool} {e : Seen} {es : List Seen}
      → Step r e r'
      → Run r' es r''
      → Run r (e ∷ es) r''

module _ {D F : Type 0} (t : Transport D F) where
  -- A call with what the outside answers to it.
  pub data Op : Type 0 where
    resume pause : t.Answers → Op
    send : t.Answers → Bytes → Op
    locate : t.Answers → TrackerFix D F → Op

  unfoldable pub perform : Op → t.State × Watchdog → Seen × t.State × Watchdog
  perform (resume a) (s, w) = let (err, u, v) = t.resume a (s, w) in (seen_resume err, u, v)
  perform (pause a) (s, w) = (seen_pause, t.pause a s, w)
  perform (send a json) (s, w) = let (err, u) = t.send_telemetry a json s in (seen_send err, u, w)
  perform (locate a fix) (s, w) = let (err, u) = t.send_location a fix s in (seen_locate err, u, w)

  unfoldable pub perform_all : List Op → t.State × Watchdog → List Seen × t.State × Watchdog
  unfolding perform
  perform_all [] (s, w) = ([], s, w)
  perform_all (o ∷ os) s =
      let (e, s1, w1) = perform o s in
      let (es, s2, w2) = perform_all os (s1, w1) in (e ∷ es, s2, w2)

resume_step :
    (r r' : Bool) (err : ℤ)
    → (err ≡ ok → r' ≡ true) × (r' ≡ true → err ≡ ok)
    → (r ≡ true → err ≡ ok)
    → Step r (seen_resume err) r'
resume_step r true err e f = rw (e.1 refl) comes_up
resume_step false false err e f = stays_down (λ o. absurd (ground (arith, e, o)))
resume_step true false err e f = absurd (ground (arith, e, f))

module _ {D F : Type 0} {t : Transport D F} (k : Contract t) where
  resume-Step :
      (a : t.Answers) (s : t.State) (w : Watchdog)
      → k.Inv s
      → let (err, u, v) = t.resume a (s, w) in Step (t.is_ready s) (seen_resume err) (t.is_ready u)
  resume-Step a s w i =
      resume_step (t.is_ready s) _ _ (k.resume_ready a s w i)
        (λ r. ap (λ x. x.0) (k.resume_again a s w i r))

  perform-Step :
      (o : Op t) (s : t.State) (w : Watchdog)
      → k.Inv s
      → let (e, u, v) = perform t o (s, w) in k.Inv u × Step (t.is_ready s) e (t.is_ready u)
  unfolding perform
  perform-Step (resume a) s w i = (k.resume-Inv a s w i, resume-Step a s w i)
  perform-Step (pause a) s w i = (k.pause-Inv a s i, pauses (k.pause_ready a s))
  perform-Step (send a json) s w i =
      (k.send_telemetry-Inv a json s i, rw (k.send_telemetry_ready a json s) sends)
  perform-Step (locate a fix) s w i =
      (k.send_location-Inv a fix s i, rw (k.send_location_ready a fix s) locates)

  -- Any sequence of calls, whatever the outside answers, is a run of the abstract link, from whether
  -- the transport was ready to whether it is: a transport that keeps the contract, in a state that its
  -- invariant holds of.
  pub perform_all-Run :
      (os : List (Op t)) (s : t.State) (w : Watchdog)
      → k.Inv s
      → let (es, u, v) = perform_all t os (s, w) in Run (t.is_ready s) es (t.is_ready u)
  unfolding perform_all
  perform_all-Run [] s w i = done
  perform_all-Run (o ∷ os) s w i =
      let (e, u, v) = perform t o (s, w) in
      let (j, st) = perform-Step o s w i in step st (perform_all-Run os u v j)
