-- ===== src/Library.antt =====
-- Moving a job's files into the library: the disk, backend/app/library/naming.py and organizer.py.
pub mod Disk
pub mod Naming
pub mod Organizer
pub mod Tests
