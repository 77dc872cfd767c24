-- ===== src/Examples.antt =====
-- Concrete runs of the modelled code (packages/ and apps/api/), with toy primitives in place of
-- SHA-256 and Ed25519, and each theorem at a concrete input.
pub mod Data
pub mod Crypto
pub mod Bundles
pub mod Receipts
pub mod Ingests
pub mod Requests
pub mod Retries
pub mod Simulations
pub mod Jobs
pub mod Anchors
pub mod Uploads
pub mod Packs
pub mod Exports
pub mod Auth
pub mod Timestamps
pub mod Encrypt
