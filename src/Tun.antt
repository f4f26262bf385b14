-- ===== src/Tun.antt =====
-- The packet side of the virtual network card.
pub mod Framer
pub mod Inbound
