-- ===== src/Board.antt =====
-- The device that app/src/main.c runs on: the components' states side by side, the uptime, and what
-- the outside does, read from a script with one entry for each call that main.c makes. Between two
-- calls the interrupts and the work queue run, in the order that the script gives.
pub mod Along
pub mod Calls
pub mod Calm
pub mod Interrupts
pub mod Linked
pub mod Ops
pub mod Quiet
pub mod Receivers
pub mod Timed
use hologram_nrf9151_gps_tra.Common.{
  ℕ, ◌+◌, Bool, true, false, List, [], ◌∷◌, ℤ, pos, Option, none, some, if◌then◌else◌, Bytes,
}
use hologram_nrf9151_gps_tra.Config.{Config}
use hologram_nrf9151_gps_tra.Wake.{Wake}
use hologram_nrf9151_gps_tra.Motion.{Motion, motion_handler}
use hologram_nrf9151_gps_tra.Power.{Power, ChargerAnswers, EventBits, event_callback}
use hologram_nrf9151_gps_tra.StatusLed.{Led, Timeout, msec, forever, blink_work_handler}
use hologram_nrf9151_gps_tra.Watchdog.{Watchdog, guard_period, elapse}
use hologram_nrf9151_gps_tra.Telemetry.{Outside}
use hologram_nrf9151_gps_tra.Gnss
use hologram_nrf9151_gps_tra.Gnss.{Gnss}
use hologram_nrf9151_gps_tra.Gnss.Fix.{Floats}
use hologram_nrf9151_gps_tra.Gnss.Modem.{Event, deliver}
use hologram_nrf9151_gps_tra.Gnss.Ext.{GnssData, gnss_data_handler}
use hologram_nrf9151_gps_tra.Agnss
use hologram_nrf9151_gps_tra.Agnss.{Agnss, ModemNumbers}
use hologram_nrf9151_gps_tra.Transport.{Transport}

-- `enum lte_lc_nw_reg_status`, as far as the code tells its values apart.
pub data RegStatus : Type 0 where
  home roaming unregistered : RegStatus

abbrev pub is_registered : RegStatus → Bool
is_registered home = true
is_registered roaming = true
is_registered unregistered = false

-- `enum lte_lc_func_mode`, as far as the recovery of the modem uses it.
pub data FuncMode : Type 0 where
  offline normal : FuncMode

-- What runs between the calls of the main thread.
pub data Interrupt (D F : Type 0) : Type 0 where
  jolt : Interrupt D F
  pmic_event : (pins : ℕ) → Interrupt D F
  lte_status : RegStatus → Interrupt D F
  modem_event : Event D F → Interrupt D F
  ext_report : GnssData → Interrupt D F
  guard_timer blink_timer : Interrupt D F

-- What a call of the main thread spends its time on: a call of a driver or of the modem that does not
-- wait, a sleep in milliseconds, a wait in seconds for a semaphore, the start of a receiver, and on the
-- network the connection of the cloud link, one message, and the download of assistance.
pub data Span : Type 0 where
  brief : Span
  sleep_ms take_s : ℕ → Span
  receiver_start connection message download : Span

-- One entry of the script: how long a call takes by what it is, what runs meanwhile, and what it
-- answers. A call uses the fields that are its own. `during` and `late` are the events of a wait for a fix, as in
-- Gnss/Modem.antt and Gnss/Ext.antt; `err` is the result of a call that has no other answer.
pub record World (D F A : Type 0) : Type 0 where
  pub elapsed_ms : Span → ℕ
  pub interrupts : List (Interrupt D F)
  pub err : ℤ
  pub charger : ChargerAnswers
  pub reg_err : ℤ
  pub reg_status : RegStatus
  pub rsrp : ℤ
  pub gnss : Gnss.Answers
  pub ext_during : List GnssData
  pub ext_late : List GnssData
  pub during : List (Event D F)
  pub late : List (Event D F)
  pub agnss : Agnss.Answers
  pub cloud : A

-- The build and the outside of one run.
pub record Platform : Type 1 where
  pub D : Type 0
  pub F : Type 0
  pub config : Config
  pub floats : Floats D F
  pub outside : Outside D F
  pub zero_d : D
  pub zero_f : F
  pub bits : EventBits
  pub numbers : ModemNumbers
  pub transport : Transport D F
  pub script : ℕ → World D F transport.Answers

module _ (p : Platform) where
  open p use {D, F, config, floats, bits, transport, script}

  -- `tick` is the next entry of the script; `lte_connected_sem` is the semaphore of main.c that
  -- `lte_handler` gives; `func_modes` are the modes that the recovery has set, newest first.
  pub record Board : Type 0 where
    pub now_ms : ℕ
    pub tick : ℕ
    pub lte_connected_sem : Bool
    pub func_modes : List FuncMode
    pub wake : Wake
    pub motion : Motion
    pub power : Power
    pub led : Led
    pub watchdog : Watchdog
    pub gnss : Gnss D F
    pub agnss : Agnss
    pub cloud : transport.State

  unfoldable pub lte_handler : RegStatus → Board → Board
  lte_handler status b = if is_registered status then record b { lte_connected_sem = true } else b

  blink_of : Option Timeout → Board → Board
  blink_of (some (msec ms)) b = record b { led = blink_work_handler config b.led }
  blink_of (some forever) b = b
  blink_of none b = b

  -- The accelerometer calls its handler while its trigger is set, and the work queue runs the blink
  -- work while it is pending with a delay.
  unfoldable pub interrupt : Interrupt D F → Board → Board
  unfolding lte_handler blink_of
  interrupt jolt b =
      let (m, w) = motion_handler b.now_ms (b.motion, b.wake) in
      if b.motion.triggered then record b { motion = m; wake = w } else b
  interrupt (pmic_event pins) b =
      let (q, w) = event_callback bits pins (b.power, b.wake) in
      if b.power.registered then record b { power = q; wake = w } else b
  interrupt (lte_status status) b = lte_handler status b
  interrupt (modem_event e) b = record b {
    gnss = record (b.gnss) { modem = deliver e b.gnss.modem };
  }
  interrupt (ext_report d) b = record b {
    gnss = record (b.gnss) { ext = gnss_data_handler floats config d b.gnss.ext };
  }
  interrupt guard_timer b = record b { watchdog = guard_period b.watchdog }
  interrupt blink_timer b = blink_of b.led.blink_work b

  unfoldable pub interrupts : List (Interrupt D F) → Board → Board
  unfolding interrupt
  interrupts [] b = b
  interrupts (i ∷ is) b = interrupts is (interrupt i b)

  -- The static variables of main.c, and the board.
  pub record Sys : Type 0 where
    pub last_send_uptime : ℕ
    pub modem_bounced : Bool
    pub battery_sleeps : ℕ
    pub board : Board

  abbrev pub M : Type 0 → Type 0
  M A = Sys → A × Sys

  -- Some milliseconds after the last call, behind the entry that answers the next one.
  abbrev pub later : ℕ → Board → Board
  later e b = record b { now_ms = b.now_ms + e; tick = b.tick + 1; watchdog = elapse e b.watchdog }

  -- One call: the entry of the script that answers it.
  unfoldable pub advance : Span → M (World D F transport.Answers)
  advance span s =
      let b = s.board in
      let w = script b.tick in
      (w, record s { board = interrupts w.interrupts (later (w.elapsed_ms span) b) })

module _ {p : Platform} where
  infixl 5 ◌>>=◌ ◌>>◌
  unfoldable pub ◌>>=◌ : {A B : Type 0} → M p A → (A → M p B) → M p B
  ◌>>=◌ m f s = let r = m s in f r.0 r.1

  unfoldable pub ◌>>◌ : {A B : Type 0} → M p A → M p B → M p B
  ◌>>◌ m k s = k (m s).1

  unfoldable pub pure : {A : Type 0} → A → M p A
  pure a s = (a, s)

  -- A read of the state, and a change of the board.
  unfoldable pub gets : {A : Type 0} → (Sys p → A) → M p A
  gets f s = (f s, s)

  unfoldable pub on_board : (Board p → Board p) → M p (Unit {0})
  on_board f s = (tt, record s { board = f s.board })

  unfoldable pub call : {A : Type 0} → (Board p → A × Board p) → M p A
  call f s = let r = f s.board in (r.0, record s { board = r.1 })
