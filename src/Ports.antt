-- ===== src/Ports.antt =====
-- What the application expects of its surroundings: internal/application/ports.
pub mod Gateway
pub mod Attempt
pub mod Cache
