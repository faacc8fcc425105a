-- ===== src/Files.antt =====
-- The files that the program keeps: package internal/frr and the reading and writing of
-- internal/state/state.go, over a disk whose every operation may fail.
pub mod Disk
pub mod Snapshots
pub mod Atomic
pub mod Frr
pub mod Seeding
