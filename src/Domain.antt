-- ===== src/Domain.antt =====
-- packages/domain/src: the value objects, the contracts and the ports that use cases and adapters
-- share. A `Date` is its number of milliseconds since 1970.
pub mod Result
pub mod Email
pub mod Ids
pub mod Contract
pub mod OtpContract
pub mod Ports
pub mod Json
pub mod Protocol
