-- ===== src/Tests.antt =====
-- Concrete runs at which the theorems apply, and small tests of the definitions.
mod Disks
mod Transfers
mod Partitions
mod Installations
mod Network
mod Sessions
mod ResourceFiles
mod DiscImages
mod SavedSettings
mod Installs
mod JapaneseText
