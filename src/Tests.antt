-- ===== src/Tests.antt =====
-- Runs at concrete inputs, by component.
mod Sample
mod Transmitting
mod Receiving
mod Framing
mod Bringing
mod Enabling
mod Stopping
mod Living
mod Serving
mod Controlling
mod Running
mod Attaching
mod Probing
mod Claiming
mod Commanding
