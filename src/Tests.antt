-- ===== src/Tests.antt =====
-- Runs of the definitions on small data, and the theorems applied to it.
mod Selection
mod Resolution
mod Lists
mod Chasing
mod Caching
mod Flights
mod Serving
mod Reloading
mod Configuring
mod Loading
mod Listening
mod Metering
mod Racing
mod Fanning
mod Framing
mod Running
