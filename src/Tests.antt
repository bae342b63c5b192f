-- ===== src/Tests.antt =====
-- Concrete inputs, and the theorems applied to them.
mod Live
mod Again
mod Answered
mod Got
mod Served
mod Toy
mod Block
mod Farmed
mod Refused
mod Running
mod Walks
mod Messages
mod Signed
mod Witnesses
mod Codecs
