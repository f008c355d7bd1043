-- ===== src/Gnss/PowerCut.antt =====
-- app/src/gnss_ext.c suspends the UART before it opens the power FET, so that its TX line does not feed
-- an unpowered module. What the suspend answers is ignored.
use hologram_nrf9151_gps_tra.Common.{Bool, true, false, not, ◌&&◌, List, [], ◌∷◌, ℤ}
use hologram_nrf9151_gps_tra.Config.{Config}
use hologram_nrf9151_gps_tra.Gnss.Fix.{Floats}
use hologram_nrf9151_gps_tra.Gnss.Ext.{
  Call, pin_set, uart_resume, uart_suspend, GnssData, ExtGnss, StartAnswers, gnss_data_handler,
  gnss_ext_init, gnss_ext_start, gnss_ext_stop,
}

-- The last call was a suspend of the UART that was accepted, or a resume that was refused.
abbrev pub parked : List Call → Bool
parked (uart_suspend accepted ∷ _) = accepted
parked (uart_resume accepted ∷ _) = not accepted
parked _ = false

-- The last call tried to suspend the UART, or to resume it and was refused.
abbrev pub tried : List Call → Bool
tried (uart_suspend accepted ∷ _) = true
tried (uart_resume accepted ∷ _) = not accepted
tried _ = false

-- Every call that switches the module off stands right behind such a try.
abbrev pub cuts_tried : List Call → Bool
cuts_tried [] = true
cuts_tried (pin_set false ∷ calls) = tried calls && cuts_tried calls
cuts_tried (_ ∷ calls) = cuts_tried calls

-- No suspend was refused.
abbrev pub suspends : List Call → Bool
suspends [] = true
suspends (uart_suspend accepted ∷ calls) = accepted && suspends calls
suspends (_ ∷ calls) = suspends calls

-- Every call that switches the module off stands right behind such a one.
abbrev pub cuts_parked : List Call → Bool
cuts_parked [] = true
cuts_parked (pin_set false ∷ calls) = parked calls && cuts_parked calls
cuts_parked (_ ∷ calls) = cuts_parked calls

module _ {D F : Type 0} (f : Floats D F) (c : Config) where
  -- The calls of the arbiter, whatever the hardware answers, and reports of the driver.
  pub data Step : ExtGnss D F → ExtGnss D F → Type 0 where
    init :
        {x : ExtGnss D F} (port uart driver : Bool) (pin_err suspend_err : ℤ)
        → Step x (gnss_ext_init port uart driver pin_err suspend_err x).1
    start : {x : ExtGnss D F} (a : StartAnswers) → Step x (gnss_ext_start c a x).1
    stop :
        {x : ExtGnss D F} (power_off : Bool) (suspend_err off_err : ℤ)
        → Step x (gnss_ext_stop power_off suspend_err off_err x)
    report : {x : ExtGnss D F} (d : GnssData) → Step x (gnss_data_handler f c d x)

  pub data Reach (x : ExtGnss D F) : ExtGnss D F → Type 0 where
    here : Reach x x
    next : {y z : ExtGnss D F} → Reach x y → Step y z → Reach x z
