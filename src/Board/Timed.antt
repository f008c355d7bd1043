-- ===== src/Board/Timed.antt =====
-- How long the programs of app/src/main.c leave the watchdog unfed, put together from their calls.
pub mod Calls
pub mod Guarded
use Prim.Native.Nat.{max}
use hologram_nrf9151_gps_tra.Common.{
  ℕ, ◌+◌, ◌-◌, ◌*◌, ◌≤◌, ◌≡◌, Bool, true, false, refl, List, [], ◌∷◌, is_neg, arith, if◌then◌else◌,
}
use hologram_nrf9151_gps_tra.Config.{Config}
use hologram_nrf9151_gps_tra.Watchdog.Tended.{IsTended, elapse-IsTended, period-IsTended}
use hologram_nrf9151_gps_tra.Board.{
  Platform, Board, Sys, M, Span, brief, sleep_ms, take_s, receiver_start, connection, message,
  download, Interrupt, interrupt, interrupts, later, advance, ◌>>=◌, ◌>>◌, pure, gets,
}

-- The longest that each kind of call takes. A sleep and a wait with a time-out end `brief_ms` after
-- their time at the latest.
pub record Limits : Type 0 where
  pub brief_ms : ℕ
  pub receiver_start_ms : ℕ
  pub connection_ms : ℕ
  pub message_ms : ℕ
  pub download_ms : ℕ

abbrev pub wait_ms : Limits → ℕ → ℕ
wait_ms l seconds = seconds * 1000 + l.brief_ms

-- The window of either receiver.
abbrev pub window_ms : Config → Limits → ℕ
window_ms c l = wait_ms l (max c.gnss_ext_fix_timeout_seconds c.gnss_fix_timeout_seconds)

abbrev pub limit : Limits → Span → ℕ
limit l brief = l.brief_ms
limit l (sleep_ms n) = n + l.brief_ms
limit l (take_s n) = wait_ms l n
limit l receiver_start = l.receiver_start_ms
limit l connection = l.connection_ms
limit l message = l.message_ms
limit l download = l.download_ms

-- What either branch makes true, a test makes true.
pub either_branch :
    {p : Platform} {A : Type 0} (P : Sys p → Type 0) (test : Bool) (m k : M p A) (s : Sys p)
    → P (m s).1
    → P (k s).1
    → P ((if test then m else k) s).1
either_branch P true m k s x y = x
either_branch P false m k s x y = y

module _ (p : Platform) (bound : ℕ) where
  open p use {D, F, script}

  abbrev pub Tended : ℕ → Sys p → Type 0
  Tended n s = IsTended bound n s.board.watchdog

  pub more-Tended : (n m : ℕ) (s : Sys p) → n ≤ m → Tended n s → Tended m s
  more-Tended n m s h t = (t.0, omega (arith, t, h), t.2)

  interrupt-Tended :
      (i : Interrupt D F) (n : ℕ) (b : Board p)
      → IsTended bound n b.watchdog
      → IsTended bound n (interrupt p i b).watchdog
  unfolding interrupt
  interrupt-Tended i n b t = ground (arith, t, period-IsTended bound n b.watchdog t)

  interrupts-now : (is : List (Interrupt D F)) (b : Board p) → (interrupts p is b).now_ms ≡ b.now_ms
  unfolding interrupts interrupt
  interrupts-now [] b = refl
  interrupts-now (i ∷ is) b = ground (arith, interrupts-now is (interrupt p i b))

  interrupts-Tended :
      (is : List (Interrupt D F)) (n : ℕ) (b : Board p)
      → IsTended bound n b.watchdog
      → IsTended bound n (interrupts p is b).watchdog
  unfolding interrupts
  interrupts-Tended [] n b t = t
  interrupts-Tended (i ∷ is) n b t =
      interrupts-Tended is n (interrupt p i b) (interrupt-Tended i n b t)

  -- With `need` more to spare the program keeps the bound, and adds `cost` at most; it lasts `total` at
  -- most.
  pub record Takes {A : Type 0} (need cost total : ℕ) (m : M p A) : Type 0 where
    pub takes : (n : ℕ) (s : Sys p) → n + need ≤ bound → Tended n s → Tended (n + cost) (m s).1
    pub lasts : (s : Sys p) → (m s).1.board.now_ms ≤ s.board.now_ms + total

  -- With `need` more to spare the program keeps the bound, and ends with a feed; it lasts `total` at
  -- most.
  pub record Feeds {A : Type 0} (need total : ℕ) (m : M p A) : Type 0 where
    pub feeds : (n : ℕ) (s : Sys p) → n + need ≤ bound → Tended n s → Tended 0 (m s).1
    pub ends : (s : Sys p) → (m s).1.board.now_ms ≤ s.board.now_ms + total

-- A program that may end without a feed.
abbrev pub Lasts : (p : Platform) → (bound : ℕ) → {A : Type 0} → ℕ → M p A → Type 0
Lasts p bound n m = Takes p bound n n n m

module _ {p : Platform} {bound : ℕ} where
  open p use {script}

  pub advance-Takes :
      (l : Limits)
      → ((n : ℕ) (span : Span) → (script n).elapsed_ms span ≤ limit l span)
      → (span : Span) → Lasts p bound (limit l span) (advance p span)
  unfolding advance
  advance-Takes l timely span = record {
    takes = λ n s b t.
        let w = script s.board.tick in
        let e = w.elapsed_ms span in
        let i = interrupts-Tended p bound w.interrupts (n + e) (later p e s.board) (
          elapse-IsTended bound n e s.board.watchdog (omega (arith, b, timely s.board.tick span))
            t) in
        ground (arith, i, timely s.board.tick span);
    lasts = λ s.
        let w = script s.board.tick in
        ground (
          arith,
          interrupts-now p bound w.interrupts (later p (w.elapsed_ms span) s.board),
          timely s.board.tick span,
        );
  }

  pub more-Takes :
      {A : Type 0} {need cost total need' cost' total' : ℕ} {m : M p A}
      → need ≤ need'
      → cost ≤ cost'
      → total ≤ total'
      → Takes p bound need cost total m
      → Takes p bound need' cost' total' m
  more-Takes {need} {cost} {total} {need'} {cost'} {total'} {m} a b c x = record {
    takes = λ n s h t. let i = x.takes n s (omega arith) t in ground (arith, b, i);
    lasts = λ s. omega (arith, x.lasts s, c);
  }

  -- What neither takes time nor touches the watchdog.
  pub free-Takes :
      {A : Type 0} (m : M p A)
      → ((s : Sys p)
          → ((m s).1.board.watchdog ≡ s.board.watchdog) × ((m s).1.board.now_ms ≡ s.board.now_ms))
      → Lasts p bound 0 m
  free-Takes m e = record {
    takes = λ n s h t. ground (arith, t, (e s).0);
    lasts = λ s. omega (arith, (e s).1);
  }

  pub pure-Takes : {A : Type 0} (a : A) → Lasts p bound 0 (pure a)
  unfolding pure
  pure-Takes a = free-Takes _ (λ s. (refl, refl))

  pub gets-Takes : {A : Type 0} (f : Sys p → A) → Lasts p bound 0 (gets f)
  unfolding gets
  gets-Takes f = free-Takes _ (λ s. (refl, refl))

  pub bind-Takes :
      {A B : Type 0} {a b t c d u : ℕ} {m : M p A} {f : A → M p B}
      → Takes p bound a b t m
      → ((x : A) → Takes p bound c d u (f x))
      → Takes p bound (max a (b + c)) (b + d) (t + u) (m >>= f)
  unfolding ◌>>=◌
  bind-Takes {a} {b} {t} {c} {d} {u} {m} {f} x y = record {
    takes = λ n s h i.
        let j = x.takes n s (omega arith) i in
        let k = (y (m s).0).takes (n + b) (m s).1 (omega arith) j in ground (arith, k);
    lasts = λ s. omega (arith, x.lasts s, (y (m s).0).lasts (m s).1);
  }

  pub then-Takes :
      {A B : Type 0} {a b t c d u : ℕ} {m : M p A} {k : M p B}
      → Takes p bound a b t m
      → Takes p bound c d u k
      → Takes p bound (max a (b + c)) (b + d) (t + u) (m >> k)
  unfolding ◌>>◌ ◌>>=◌
  then-Takes x y = bind-Takes x (λ z. y)

  pub if-Takes :
      {A : Type 0} {a b t c d u : ℕ} {m k : M p A} (test : Bool)
      → Takes p bound a b t m
      → Takes p bound c d u k
      → Takes p bound (max a c) (max b d) (max t u) (if test then m else k)
  if-Takes true x y = more-Takes (omega arith) (omega arith) (omega arith) x
  if-Takes false x y = more-Takes (omega arith) (omega arith) (omega arith) y

  pub bind-Feeds :
      {A B : Type 0} {a b t c u : ℕ} {m : M p A} {f : A → M p B}
      → Takes p bound a b t m
      → ((x : A) → Feeds p bound c u (f x))
      → Feeds p bound (max a (b + c)) (t + u) (m >>= f)
  unfolding ◌>>=◌
  bind-Feeds {a} {b} {t} {c} {u} {m} {f} x y = record {
    feeds = λ n s h i.
        let j = x.takes n s (omega arith) i in (y (m s).0).feeds (n + b) (m s).1 (omega arith) j;
    ends = λ s. omega (arith, x.lasts s, (y (m s).0).ends (m s).1);
  }

  pub then-Feeds :
      {A B : Type 0} {a b t c u : ℕ} {m : M p A} {k : M p B}
      → Takes p bound a b t m
      → Feeds p bound c u k
      → Feeds p bound (max a (b + c)) (t + u) (m >> k)
  unfolding ◌>>◌ ◌>>=◌
  then-Feeds x y = bind-Feeds x (λ z. y)

  -- A feed, and what comes after it.
  pub Feeds-bind :
      {A B : Type 0} {a t c d u : ℕ} {m : M p A} {f : A → M p B}
      → Feeds p bound a t m
      → c ≤ bound
      → ((x : A) → Takes p bound c d u (f x))
      → Takes p bound a d (t + u) (m >>= f)
  unfolding ◌>>=◌
  Feeds-bind {a} {t} {c} {d} {u} {m} {f} x h y = record {
    takes = λ n s b i.
        let j = (y (m s).0).takes 0 (m s).1 (omega arith) (x.feeds n s b i) in ground (arith, j);
    lasts = λ s. omega (arith, x.ends s, (y (m s).0).lasts (m s).1);
  }

  -- What takes no time may follow a feed.
  pub Feeds-then :
      {A B : Type 0} {a t : ℕ} {m : M p A} {k : M p B}
      → Feeds p bound a t m
      → Lasts p bound 0 k
      → Feeds p bound a t (m >> k)
  unfolding ◌>>◌
  Feeds-then {a} {t} {m} {k} x y = record {
    feeds = λ n s b i. y.takes 0 (m s).1 (omega arith) (x.feeds n s b i);
    ends = λ s. omega (arith, x.ends s, y.lasts (m s).1);
  }

  pub Feeds-Takes : {A : Type 0} {a t : ℕ} {m : M p A} → Feeds p bound a t m → Takes p bound a 0 t m
  Feeds-Takes {m} x = record {
    takes = λ n s b t. let i = x.feeds n s b t in ground (arith, i);
    lasts = x.ends;
  }
