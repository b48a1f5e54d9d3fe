-- ===== src/Auth/Operations.antt =====
-- The requests of auth.service.ts, without their mails, audit entries and search index. The server's
-- zone has no daylight saving, so that a day from now is 24 hours from now. `Access` is what several
-- requests share.
pub mod Access
pub mod Signup
pub mod Login
pub mod Google
pub mod Recovery
pub mod Settings
pub mod EmailChange
pub mod Onboarding
