-- ===== src/Provider.antt =====
-- src/doppel_agent/provider.py: the asynchronous provider's circuit breaker and its bounded retries.
pub mod Circuit
pub mod Retry
pub mod Bounds
pub mod Requests
pub mod Turns
pub mod Outage
pub mod Tests
