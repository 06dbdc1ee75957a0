-- ===== src/Tests.antt =====
-- Runs of the modelled code on concrete data, and instances of the theorems.
mod Data
mod Payouts
mod Batches
mod Incoming
mod Rules
mod Money
mod Desk
mod Export
mod Limiter
mod Platform
mod SignIn
mod Exchange
mod Purchase
mod Papers
mod Branch
mod Rights
