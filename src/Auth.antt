-- ===== src/Auth.antt =====
-- backend/isched_AuthenticationMiddleware.cpp: lockout after failed logins, in-memory sessions, and the
-- validation of requests and tokens.
pub mod RateLimits
pub mod Sessions
pub mod Requests
