-- ===== src/Examples.antt =====
-- Runs at concrete inputs, and the instances that the hypotheses of the theorems are tried on.
mod Devices
mod World
mod Copying
mod Sorting
mod Records
mod Jobs
mod Clients
mod Streams
mod Commands
mod Screens
