-- ===== src/Bus/Delivery.antt =====
-- From the pump to the reader: a globule that is taken is the last that an organ has to read.
use operating_organism.Bus.{Bus}
