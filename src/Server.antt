-- ===== src/Server.antt =====
-- HDLGameSvr.c: the server's clients.
pub mod Installation
pub mod Osd
pub mod Session
