-- ===== src/Tests.antt =====
-- Concrete runs of the theorems.
mod Sample
mod Signing
mod Stores
mod Json
mod Addresses
mod Programs
mod Requests
mod Service
mod Loads
mod Delivered
mod Journal
mod Pulled
