-- ===== src/Tests.antt =====
-- Runs of the model at concrete devices and inputs.
mod Devices
mod Turning
mod Mext
mod Input
mod Handshake
mod Series
mod Forty
mod Core
mod Osc
mod Monomeserial
mod Opening
