-- ===== src/Net.antt =====
-- The network: the packets that the console's server (HDLGameSvr.c) and the PC's client
-- (HDLGManClient/client.c) exchange, and the loops that both send and receive them by.
pub mod Socket
pub mod Send
pub mod Receive
pub mod Packet
pub mod Client
