-- ===== src/Auth.antt =====
-- src/modules/auth/services/auth.service.ts: the rows, one-time passwords, logins, passwords, agents,
-- registration, and the sessions that all of them open and close.
pub mod Rows
pub mod Tables
pub mod Otp
pub mod Login
pub mod Passwords
pub mod Agents
pub mod Signup
pub mod Onboarding
pub mod Kyc
pub mod Sessions
