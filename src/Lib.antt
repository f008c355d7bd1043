-- ===== src/Lib.antt =====
-- The firmware of an nRF9151 GPS tracker: a report loop that wakes up on a timer, on external power or
-- on a jolt, brings up the network and a cloud link, takes a position fix, sends a report, and sleeps.
--
-- The parts, their files here and their sources:
-- - Wake.antt, app/src/wake.c: the semaphore and the reason that end a sleep. Motion.antt
--   (app/src/motion.c) and Power.antt (app/src/power.c) raise it, from the accelerometer and the PMIC.
-- - Watchdog.antt, app/src/watchdog.c: the hardware watchdog, the guard timer that feeds it during a
--   network call, and the phase marker that survives a reset. The loop and Agnss.antt call it.
-- - Telemetry.antt, app/src/telemetry.c: battery percentage and JSON payload. StatusLed.antt,
--   app/src/status_led.c: the status LED and its blink work; StatusLed/Threads.antt takes its caller and
--   the work queue apart, access by access.
-- - Gnss.antt, app/src/gnss.c: which receiver has the cycle; over Gnss/Modem.antt (app/src/gnss_modem.c)
--   and Gnss/Ext.antt (app/src/gnss_ext.c), with the fix of app/src/fix.h in Gnss/Fix.antt; seen
--   from outside in Gnss/Machine.antt. Agnss.antt, app/src/agnss.c: assistance data for the modem's
--   receiver.
-- - CloudNrf.antt (app/src/cloud_nrf.c) and Hologram.antt (app/src/hologram.c, app/src/cloud_hologram.c):
--   the two transports, one of which is compiled in behind app/src/cloud.h, the record of Transport.antt.
--   Its promises are the laws of Transport/Contract.antt, which both transports fill and the theorems on
--   the whole program take.
-- - Main.antt, Main/Boot.antt, Main/Cycle.antt and Main/Run.antt, app/src/main.c: the helpers, the start,
--   one pass of the endless loop, and `main` as the start and any number of passes; on the device of
--   Board.antt, with the calls of Board/Ops.antt.
-- Config.antt has the options of app/Kconfig, and Build.antt the inline functions that stand for a part
-- which a build leaves out. The modules below each of these hold its theorems, and
-- Tests has runs on concrete inputs. Common has the shared tests, C's signed integers, text and lists.
--
-- How the code is read. A component's static variables are a record; each function takes it and gives it
-- back with its result. Functions keep the names of the source. What drivers, the modem, the cloud
-- library, cJSON and sockets answer is an argument, so every theorem holds for every answer; calls that
-- matter for a theorem are logged in the state, newest first. Unsigned arithmetic wraps where it is
-- written in the source; numbers of C's `double` and `float` are abstract. An interrupt or a work item
-- that may run between two accesses of a function is a list of events at that place. In Main the clock,
-- the interrupts between calls and all answers come from a script, one entry for each call; a program is
-- a function from the state of main.c to a result and the state, put together in the order of the code.
-- How long a call takes is in its entry of the script, by the kind of call (`Span`: short, a sleep or wait
-- with its time-out, a receiver's start, a connection, a message, a download), and passes before what the
-- call does to the state. Board/Along.antt carries a relation between the states before and after from
-- the calls to programs, and Board/Timed.antt the time that the watchdog is left unfed
-- (Watchdog/Tended.antt), with the sum of every stretch between two feeds in Main/Cycle/Timed.antt.
-- Main/Run/Rule.antt takes what is shown of one pass of the loop to a run of any number of passes.
--
-- Bounds and fuel. Decimal text is made with fuel 20, enough below 10^20 and so for 64 bits
-- (Common/Text.antt has the way back). `main` runs as many passes as it is given. The wait for the
-- modem's time has one unit of fuel more than seconds to wait. The loop of frequent reports takes the
-- number of rounds that may run, and says when they were used up; Main/Cycle/Ends.antt is about how many
-- are enough on battery, and with external power the loop has no end of its own.
--
-- Not modelled: logging, the scheduler (a wait is what happens until it ends), app/src/startup.c (one AT
-- command with no state), and Kconfig, device tree and build files.
pub mod Common
pub mod Config
pub mod Wake
pub mod Watchdog
pub mod Motion
pub mod Power
pub mod Telemetry
pub mod StatusLed
pub mod Gnss
pub mod CloudNrf
pub mod Agnss
pub mod Hologram
pub mod Transport
pub mod Build
pub mod Board
pub mod Main
pub mod Tests
