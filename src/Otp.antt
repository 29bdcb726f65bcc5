-- ===== src/Otp.antt =====
-- The email-OTP login: the challenge store (packages/db/src/otp-challenge-store.ts), the code
-- generator (packages/db/src/otp-code.ts) and the use cases
-- (packages/domain/src/identity/otp-use-cases.ts).
pub mod Store
pub mod Code
