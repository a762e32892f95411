-- ===== src/Evolution/Pheromones.antt =====
-- What a pheromone, or the alarm about its sender, adds for organ 1.
use operating_organism.Bus.{Bus}
