-- ===== src/Api.antt =====
-- backend/isched_GqlExecutor.cpp: the built-in resolvers, on the databases, the lockout and the broker.
pub mod Login
pub mod Logouts
pub mod Bootstrap
pub mod Replies
pub mod Configurations
pub mod Rollbacks
pub mod Users
pub mod Organizations
pub mod Administration
