-- ===== src/Tests.antt =====
-- Runs of the models on concrete inputs.
mod Data
mod Drivers
mod Receivers
mod Links
mod Loop
mod Program
