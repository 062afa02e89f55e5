-- ===== src/Osd.antt =====
-- OSD.c: the resources that a game's partition has for the console's browser.
pub mod Files
pub mod Area
