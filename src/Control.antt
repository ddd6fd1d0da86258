-- ===== src/Control.antt =====
-- services/control: accounts, keys, stations and sessions.
pub mod Session
pub mod Tables
pub mod Accounts
pub mod Registry
pub mod Api
pub mod Handlers
pub mod SignIn
pub mod Server
