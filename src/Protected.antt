-- ===== src/Protected.antt =====
-- The protection of the agent's files on Windows (internal/protectedpath). `Descriptor` classifies
-- security descriptors, `Repair` inspects and repairs the objects of the start.
pub mod Descriptor
pub mod Repair
pub mod Startup
