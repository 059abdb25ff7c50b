-- ===== src/Store.antt =====
-- internal/store: the data of the gateway and the rules over it.
pub mod Model
pub mod Account
pub mod Data
pub mod Allocate
pub mod Remove
pub mod Admin
