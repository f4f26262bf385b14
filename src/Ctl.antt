-- ===== src/Ctl.antt =====
-- The control plane, app/ctl/internal: the node registry of a group (logic/node), the group
-- registry (logic/group) and the relay directory (logic/relaydir).
pub mod Node
pub mod Group
pub mod Relays
