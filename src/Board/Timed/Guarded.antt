-- ===== src/Board/Timed/Guarded.antt =====
-- How long the calls of app/src/main.c take that feed the watchdog by its guard.
use Prim.Native.Nat.{max}
use hologram_nrf9151_gps_tra.Common.{
  ℕ, ◌+◌, ◌≤◌, ◌≡◌, Bool, List, [], ◌∷◌, if◌then◌else◌, ◌&&◌, not, refl, true, false, arith,
}
use hologram_nrf9151_gps_tra.Config.{Config}
use hologram_nrf9151_gps_tra.Watchdog.{Watchdog, watchdog_guard_start}
use hologram_nrf9151_gps_tra.Watchdog.Tended.{IsTended, guard_start-IsTended, guard_stop-IsTended}
use hologram_nrf9151_gps_tra.Agnss
use hologram_nrf9151_gps_tra.Agnss.{Agnss, ModemNumbers, rate_limited, agnss_fetch_and_inject}
use hologram_nrf9151_gps_tra.Build.{built_agnss_fetch}
use hologram_nrf9151_gps_tra.Gnss.Modem.{ModemGnss}
use hologram_nrf9151_gps_tra.Transport.Contract.{Contract}
use hologram_nrf9151_gps_tra.Board.{
  Interrupt, interrupt, interrupts, Platform, Board, Sys, Span, brief, connection, download,
  advance, ◌>>=◌, ◌>>◌, pure, gets, on_board, call,
}
use hologram_nrf9151_gps_tra.Board.Ops.{
  guard_start, guard_stop, uptime, fetch_span, fetch_agnss, cloud_resume, guarded_resume,
}
use hologram_nrf9151_gps_tra.Board.Timed.{Limits, limit, Takes, Feeds, advance-Takes}

fetched_lem :
    {D F : Type 0} (c : Config) (numbers : ModemNumbers) (bound : ℕ) (a : Agnss.Answers)
    (m : ModemGnss D F) (w : Watchdog) (s before : Agnss) (n b d : ℕ)
    → s ≡ before
    → IsTended bound (n + b) w
    → (c.agnss && not (rate_limited c a.now before) ≡ false → b ≡ d)
    → let (_, _, v, _) = built_agnss_fetch c numbers a (m, w, s) in IsTended bound (n + d) v
unfolding built_agnss_fetch agnss_fetch_and_inject
fetched_lem c numbers bound a m w s before n b d e fed same =
    let w1 = watchdog_guard_start c.agnss_budget_seconds w in
    let fed1 = guard_start-IsTended bound (n + b) c.agnss_budget_seconds w fed in
    rw e (ground (arith, fed, same, guard_stop-IsTended bound 0 w1 fed1))

fetch_limit :
    (l : Limits) (asked : Bool)
    → let spent = limit l (if asked then download else brief) in
      (spent ≤ max l.download_ms l.brief_ms) × (asked ≡ false → spent ≡ l.brief_ms)
fetch_limit l true = ground arith
fetch_limit l false = ground arith

module _ (p : Platform) where
  interrupts-agnss :
      (is : List (Interrupt p.D p.F)) (b : Board p) → (interrupts p is b).agnss ≡ b.agnss
  unfolding interrupts interrupt
  interrupts-agnss [] b = refl
  interrupts-agnss (i ∷ is) b = ground (arith, interrupts-agnss is (interrupt p i b))

  advance-agnss : (span : Span) (s : Sys p) → (advance p span s).1.board.agnss ≡ s.board.agnss
  unfolding advance
  advance-agnss span s = interrupts-agnss (p.script s.board.tick).interrupts _

module _ {p : Platform} {bound : ℕ} (l : Limits)
    (timely : (n : ℕ) (span : Span) → (p.script n).elapsed_ms span ≤ limit l span) where
  open p use {D, F, config, script, transport}

  -- A fetch, with the guard around the download.
  pub fetch_agnss-Takes :
      Takes p bound
        (max l.download_ms l.brief_ms)
        l.brief_ms
        (max l.download_ms l.brief_ms)
        (fetch_agnss p)
  unfolding fetch_agnss uptime gets call ◌>>=◌
  fetch_agnss-Takes = record {
    takes = λ n s h t.
        let span = fetch_span p s.board.now_ms s.board.agnss in
        let s1 = (advance p span s).1 in
        let a = record ((advance p span s).0.agnss) {
          now = s.board.now_ms;
          done = s1.board.now_ms;
        } in
        let asked = config.agnss && not (rate_limited config s.board.now_ms s.board.agnss) in
        let spent = fetch_limit l asked in
        let t1 = (advance-Takes l timely span).takes n s (ground (arith, h, spent)) t in
        fetched_lem config p.numbers bound a s1.board.gnss.modem s1.board.watchdog s1.board.agnss
          s.board.agnss n (limit l span) l.brief_ms (advance-agnss p span s) t1 spent.1;
    lasts = λ s.
        let span = fetch_span p s.board.now_ms s.board.agnss in
        let asked = config.agnss && not (rate_limited config s.board.now_ms s.board.agnss) in
        omega (arith, (advance-Takes l timely span).lasts s, fetch_limit l asked);
  }

  module _ (k : Contract transport) where
    -- `cloud_resume` under the guard ends with a feed.
    pub guarded_resume-Feeds : Feeds p bound l.connection_ms l.connection_ms (guarded_resume p)
    unfolding guarded_resume cloud_resume guard_start guard_stop on_board call pure ◌>>=◌ ◌>>◌
    guarded_resume-Feeds = record {
      feeds = λ n s h t.
          let s1 = (guard_start p config.cloud_connect_budget_seconds s).1 in
          let t1 =
            guard_start-IsTended bound n config.cloud_connect_budget_seconds s.board.watchdog t in
          let s2 = (advance p connection s1).1 in
          let t2 = (advance-Takes l timely connection).takes 0 s1 (omega arith) t1 in
          let w = (advance p connection s1).0 in
          guard_stop-IsTended bound _ _
            (k.resume-IsTended bound _ w.cloud s2.board.cloud s2.board.watchdog t2);
      ends = λ s.
          let s1 = (guard_start p config.cloud_connect_budget_seconds s).1 in
          (advance-Takes {bound = bound} l timely connection).lasts s1;
    }
