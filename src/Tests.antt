-- ===== src/Tests.antt =====
-- Runs of the program's parts at concrete inputs.
mod Fixtures
mod Timing
mod Storage
mod Talk
mod Visits
mod Disk
mod Clouds
mod Programs
mod Trip
mod Pipes
