-- ===== src/Protocol.antt =====
-- PostgresProtocolAdapter of packages/db/src/protocol-adapter.ts on the tables of
-- packages/db/src/schema/protocol.ts: the clients, consents, keys and artifacts of the protocol
-- provider. What crypto.randomUUID draws and the clock reads is an argument.
pub mod Rows
pub mod Clients
pub mod Consents
pub mod Artifacts
pub mod Interactions
pub mod History
mod Tests
