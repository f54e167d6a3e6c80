-- ===== src/Agent.antt =====
-- internal/agent: the resolver that answers which variables a path or a command gets, and the local
-- source of internal/sources/local.
pub mod Source
pub mod Resolver
pub mod Protocol
pub mod Server
mod Tests
