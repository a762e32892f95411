-- ===== src/Vital.antt =====
-- vital-baremetal: the vital parts, from consciousness, pain and energy to the life loop and what it
-- keeps on disk.
pub mod Consciousness
pub mod Nociception
pub mod Metabolism
pub mod Regulator
pub mod Synapses
pub mod Epigenetics
pub mod Dreams
pub mod Spark
pub mod Pineal
pub mod Heart
pub mod Persistence
pub mod Forth
pub mod Examples
