-- ===== src/Tests.antt =====
-- Concrete runs of the program, and of what is proved of it.
mod Storage
mod Provider
mod Group
mod Account
mod Envelope
mod Invitation
mod Receive
