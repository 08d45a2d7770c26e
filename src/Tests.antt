-- ===== src/Tests.antt =====
-- Runs on concrete inputs, and the theorems at inputs that meet their hypotheses.
mod Data
mod Client
mod Clients
mod Failures
mod Server
mod Delivery
mod Seastar
mod SeastarDelivery
mod SeastarClient
mod Database
mod System
mod Start
mod Examples
mod Mains
mod Transport
