-- ===== src/Ctl/Group.antt =====
-- app/ctl/internal/logic/group: the groups, their invite codes, members and announced addresses
-- (registry.go), over the statements that the store runs (store.go).
pub mod Types
pub mod Monad
pub mod Methods
pub mod Restore
pub mod Rules
pub mod Invariant
pub mod Join
pub mod Create
pub mod Reset
pub mod Kick
pub mod Subnets
pub mod Run
pub mod Effects
pub mod Expiry
pub mod Codes
pub mod StoreFailure
