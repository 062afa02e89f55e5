-- ===== src/Hdlfs.antt =====
-- hdlfs/main.c and hdlfs/hdlfs.h: the filesystem driver that shows the partitions of one game, a
-- main partition and its sub-partitions, as one disc image.
pub mod Format
pub mod Descriptor
pub mod Transfer
pub mod Header
