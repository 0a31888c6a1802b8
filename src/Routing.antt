-- ===== src/Routing.antt =====
-- app/subscriptions/services/routing.py: from an ICCID to its provider.
pub mod Text
pub mod Table
pub mod NegativeCache
pub mod Resolve
mod Tests
