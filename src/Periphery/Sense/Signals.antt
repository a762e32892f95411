-- ===== src/Periphery/Sense/Signals.antt =====
-- What the cortex sees of the senses.
use operating_organism.Bus.{Bus}
