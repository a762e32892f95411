-- ===== src/Periphery.antt =====
-- The organs at the edge of the body: the spinal cord, the senses, the sleep, the repair of code and
-- the voice.
pub mod Reflex
pub mod Sense
pub mod Sleep
pub mod Repair
pub mod Vocal
mod Examples
