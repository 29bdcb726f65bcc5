-- ===== src/Lib.antt =====
-- The security core of the identity service: one-time codes by email and their login, the rate limit,
-- refresh tokens and sessions, the signed boundary between the two services, verification tokens,
-- the storage of the protocol provider, and product access.
--
-- How the parts interact. The login (Login) counts each attempt with the rate limit (RateLimit) and
-- then works on the challenge store (Otp.Store), the accounts and the audit and outbox tables in one
-- transaction. The session adapter (Session) owns refresh credentials and revocations, the identity
-- adapter (Identity) tokens, passwords and sessions, which the use cases (UseCases) put together with
-- the rate limit in transactions. The boundary (Boundary) checks the requests that
-- the protocol service sends to the API. Product access (Access) stands alone.
--
-- Files, with the code that they model:
-- - Prelude: shared names and Boolean tests, lists over the native numbers.
-- - Sql: the statements that the adapters write with drizzle, on a table as the list of its rows;
--   Sql/Keyed reads a table with a unique key as a map, Sql/Rows and Sql/Held say what statements keep.
-- - Domain: packages/domain/src: results and errors (errors.ts), value-objects, the contracts of
--   identity and the ports. Tables: the rows of packages/db/src/schema.
-- - Otp/Store: PostgresOtpChallengeStore (packages/db/src/otp-challenge-store.ts): create and consume.
--   Judge is the judgement of one row that specifies consume, History runs sequences of transactions.
-- - Otp/Code: packages/db/src/otp-code.ts, with the drawn words as a list; Decimal reads a code.
-- - RateLimit: PostgresRateLimitPort (packages/db/src/postgres-rate-limit.ts): consume_dimension for
--   consumeDimension, consume for consume.
-- - Login: packages/domain/src/identity/otp-use-cases.ts: Request is requestOtp, Redeem redeemOtp.
-- - Session: PostgresSessionSecurityAdapter (packages/db/src/session-security-adapter.ts).
-- - Identity: PostgresIdentityAdapter (packages/db/src/identity-adapter.ts).
-- - Boundary: packages/contracts/src/protocol-boundary.ts and boundary-auth.ts: ReplayStore is
--   MemoryReplayStore, Auth authenticateBoundaryRequest, Header the regular expressions.
-- - Protocol: PostgresProtocolAdapter (packages/db/src/protocol-adapter.ts) on the rows of
--   packages/db/src/schema/protocol.ts: Clients, Consents, Artifacts and Interactions are its groups of
--   methods, History runs sequences of calls.
-- - UseCases: packages/domain/src/identity/use-cases.ts, in_transaction for unitOfWork.run: Register,
--   SignIn, Reset and Deactivate are its use cases.
-- - Bootstrap: FirstAdminBootstrap (packages/db/src/first-admin-bootstrap.ts).
-- - Boundary/Client: createBoundaryClient of apps/protocol/src/boundary.ts.
-- - Access: packages/domain/src/aggregates/product-access.ts.
--
-- Times are milliseconds as natural numbers. Random texts are arguments, as are the readings of the
-- clock. Parameters stand for what is not the repository's: the digest `sha256`, the case table
-- `lower_case`, Date.toISOString as `iso`, Bun.password, the sessions' owner of the login, and the
-- boundary's Runtime (HMAC, UTF-8, Number and the zod schemas with the JSON parser). A transaction
-- is a function on the tables, undone when it throws or when its commit fails; that a commit is reported
-- as failed and yet took effect is left out. Transactions run one after the other. For the single UPDATE
-- statements and for rows that are there the row locks see to that; it is an assumption for the rate
-- limit's first call on a key, where SELECT FOR UPDATE has no row to lock (a test of RateLimit shows
-- what two such calls at once would write). The sessions' owner of the login is asked within the
-- transaction but has its own store, which is not in the model: a session that it made is not undone
-- with the transaction. Two loops recurse on
-- fuel: the batches of cleanupExpiredArtifacts, for which one more than the rows of the table is enough,
-- and the attempts of a boundary request, for which one more than maxRetries is. Every other recursion
-- is on a list or a text.
--
-- Not modelled: the routes and the email delivery of apps/api, the provider's assembly and its adapter
-- in apps/protocol, the payload schemas of the boundary, and the web application, whose code is pages
-- and components.
pub mod Prelude
pub mod Sql
pub mod Domain
pub mod Tables
pub mod Otp
pub mod RateLimit
pub mod Session
pub mod Identity
pub mod Login
pub mod Access
pub mod Boundary
pub mod Protocol
pub mod UseCases
pub mod Bootstrap
