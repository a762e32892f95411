-- ===== src/Bus/Pump.antt =====
-- What `united_bus_pump` accepts, what it refuses, and what either does to the bus.
use operating_organism.Prelude.{ℕ, ◌+◌, ◌≡◌, ◌≢◌, Bool, ◌&&◌, not, arith, ◌==◌, if◌then◌else◌, u32}
use operating_organism.Bus.{
  Globule, Bus, pumped, congested, filtered, pump, next_index, is_red, is_priority, organ_cortex,
  organ_sensory, dilate,
}

-- The ring is full: the next write position is the oldest globule.
abbrev pub is_full : Bus → Bool
is_full b = next_index b b.heart_systole == b.heart_diastole

-- The barrier before the cortex holds this globule back.
abbrev is_barred : Globule → Bool
is_barred g =
    g.target_organ == organ_cortex && (is_red g.type && not (g.source_organ == organ_sensory))

-- The result of a pump is decided as follows: a white or yellow globule is always taken; any other
-- is refused for congestion if the ring is full; else a red one for the cortex that does not come
-- from the senses is filtered; else it is taken.
pub pump_result :
    (b : Bus) (g : Globule)
    → (pump b g).1 ≡ (
        if is_priority g.type
        then pumped
        else (if is_full b then congested else (if is_barred g then filtered else pumped)))
unfolding pump
pump_result b g = ground arith

-- A refused globule, for congestion or by the barrier, changes the two counters and nothing else.
pub pump_refused :
    (b : Bus) (g : Globule)
    → (pump b g).1 ≢ pumped
    → (pump b g).0 ≡ record b { total_pumps = u32 (b.total_pumps + 1); drops = u32 (b.drops + 1) }
unfolding pump
pump_refused b g h = ground arith

-- A globule that is taken stands at the old write position under the next id, every other place of
-- the stream is as it was, the write position moves on by one, and no drop is counted.
pub pump_taken :
    (b : Bus) (g : Globule) (i : ℕ)
    → (pump b g).1 ≡ pumped
    → ((pump b g).0.blood_stream b.heart_systole ≡ record g { globule_id = b.next_globule_id })
      × (i ≢ b.heart_systole → (pump b g).0.blood_stream i ≡ b.blood_stream i)
      × ((pump b g).0.heart_systole ≡ next_index b b.heart_systole)
      × ((pump b g).0.next_globule_id ≡ u32 (b.next_globule_id + 1))
      × ((pump b g).0.current_capacity ≡ dilate g.type b.current_capacity)
      × ((pump b g).0.drops ≡ b.drops)
unfolding pump
pump_taken b g i h = ground arith
