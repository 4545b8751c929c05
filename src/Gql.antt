-- ===== src/Gql.antt =====
-- backend/isched_GqlExecutor.cpp: the parts of the executor that work on syntax trees.
pub mod TypeRefs
pub mod Deprecation
pub mod Fields
pub mod Complexity
pub mod Json
pub mod Arguments
pub mod Resolvers
pub mod Gates
pub mod Execution
pub mod Types
pub mod Schema
pub mod Documents
