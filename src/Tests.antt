-- ===== src/Tests.antt =====
-- Runs of the theorems at concrete inputs.
mod Wire
mod Media
mod Session
mod Messages
mod Signalling
mod Devices
mod Calls
mod Coordination
mod Requests
mod Onboarding
