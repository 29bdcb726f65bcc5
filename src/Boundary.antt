-- ===== src/Boundary.antt =====
-- The authenticated boundary between the Protocol process and the API: its wire types
-- (packages/contracts/src/protocol-boundary.ts), and the authentication that both ends share
-- (packages/contracts/src/boundary-auth.ts).
pub mod Contract
pub mod ReplayStore
pub mod Header
pub mod Auth
pub mod Client
