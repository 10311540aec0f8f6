-- ===== src/Accounts.antt =====
-- What ride-service/internal/users/service.go and ride-service/internal/drivers/service.go share: a
-- table of accounts, passwords, and the steps that create an account and log in.
pub mod Table
pub mod Steps
pub mod Laws
pub mod Memory
