-- ===== src/Wake/Reason.antt =====
-- What app/src/wake.c hands back to the report loop.
use hologram_nrf9151_gps_tra.Common.{◌≡◌, refl, List, [], ◌∷◌, ◌++◌, arith, true, false, last_or}
use hologram_nrf9151_gps_tra.Wake.{
  WakeReason, timer, Wake, wake_signal, wake_signals, drain, wake_wait,
}

pending-wake_signals :
    (rs : List WakeReason) (w : Wake) → (wake_signals rs w).pending ≡ last_or w.pending rs
unfolding wake_signals
pending-wake_signals [] w = refl
pending-wake_signals (r ∷ rs) w = pending-wake_signals rs (wake_signal r w)

wake_sem-wake_signals :
    (r : WakeReason) (rs : List WakeReason) (w : Wake) → (wake_signals (r ∷ rs) w).wake_sem ≡ true
unfolding wake_signals
wake_sem-wake_signals r [] w = refl
wake_sem-wake_signals r (q ∷ rs) w = wake_sem-wake_signals q rs (wake_signal r w)

-- The last signal that the reader sees, if one ended the wait, and the timer otherwise.
abbrev pub answer : (during late : List WakeReason) → WakeReason
answer [] late = timer
answer (r ∷ during) late = last_or r (during ++ late)

last_or-append :
    (d : WakeReason) (xs ys : List WakeReason) → last_or d (xs ++ ys) ≡ last_or (last_or d xs) ys
last_or-append d [] ys = refl
last_or-append d (x ∷ xs) ys = last_or-append x xs ys

-- Whatever was raised before the wait, or comes between the two calls that drain it, is dropped: the
-- reason is the timer if no signal comes while `k_sem_take` waits, and otherwise the last signal from
-- the start of that wait until the reason is read.
pub wake_wait-answer :
    (early during late : List WakeReason) (w : Wake)
    → (wake_wait early during late w).0 ≡ answer during late
unfolding wake_wait
wake_wait-answer early [] late w = refl
wake_wait-answer early (r ∷ during) late w = ground (
  arith,
  wake_sem-wake_signals r during (drain early w),
  pending-wake_signals late
      (record (wake_signals (r ∷ during) (drain early w)) { wake_sem = false }),
  pending-wake_signals (r ∷ during) (drain early w),
  last_or-append r during late,
)
