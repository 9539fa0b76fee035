-- ===== src/Billing.antt =====
-- Token usage: src/doppel_agent/provider_usage.py and the usage details of
-- src/doppel_agent/provider_observation.py.
pub mod Usage
pub mod Meter
pub mod Details
pub mod Snapshot
pub mod Rates
pub mod Normalised
pub mod Spelling
pub mod Amounts
pub mod Estimates
pub mod Tariff
pub mod Receipts
pub mod Frozen
pub mod Prices
pub mod Tests
