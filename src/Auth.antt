-- ===== src/Auth.antt =====
-- Authentication: password hashes, the table of users, and the names of users.
pub mod PasswordHash
pub mod Compare
pub mod HashLaws
pub mod AuthManager
pub mod UserTable
pub mod Migration
pub mod EmptyPassword
pub mod Plain
mod Tests
