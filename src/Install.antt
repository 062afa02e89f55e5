-- ===== src/Install.antt =====
-- system.c: the installation of a game, from the choice of its partitions to the copy of the disc.
pub mod Partitions
pub mod Creation
pub mod Names
pub mod Games
pub mod Drive
pub mod Update
