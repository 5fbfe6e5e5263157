-- ===== src/Network.antt =====
-- network/: the guard that blocks orders without a VPN.
pub mod VpnGuard
