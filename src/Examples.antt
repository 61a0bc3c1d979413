-- ===== src/Examples.antt =====
-- The modules of apps/server/src and packages/browser-client/src at concrete inputs.
mod Data
mod Messages
mod Runs
mod Workers
mod Events
mod Services
mod Browser
mod Network
mod Sessions
mod Codec
mod Machine
mod Lists
