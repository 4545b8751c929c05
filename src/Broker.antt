-- ===== src/Broker.antt =====
-- backend/isched_SubscriptionBroker.cpp and .hpp: the fan-out broker of subscription events.
pub mod Buckets
pub mod Registry
pub mod Operations
pub mod Sessions
pub mod Refinement
pub mod Delivery
pub mod AuthSessions
