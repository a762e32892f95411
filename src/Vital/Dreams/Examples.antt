-- ===== src/Vital/Dreams/Examples.antt =====
-- Lives and nights at concrete values.
use operating_organism.Prelude.{length, ℕ, ◌*◌, ◌/◌, ◌%◌, ◌≤◌, ◌≡◌, refl, List, [], ◌∷◌, arith}
use operating_organism.Prelude.Int.{ℤ, pos, negsuc}
use operating_organism.Vital.Epigenetics.{
  Event, Epigenome, checksum_of, seal, blank, mark_experience, get_success_ratio,
}
use operating_organism.Vital.Epigenetics.Life.{IsSound, live, traumas, successes, live_lem}

abbrev void_event : Event
void_event = record { pulse_at = 0; impact = pos 0; source_organ = 0 }

abbrev flash : Epigenome
flash = record {
  trauma_level = 7;
  success_count = 7;
  total_experiences = 7;
  personality_bias = 7;
  resilience = 7;
  generation = 7;
  events = λ i. void_event;
  event_head = 7;
  checksum = 7;
}

-- A trauma, two successes and an experience that is neither.
abbrev youth : List (ℕ × ℤ)
youth = (3, negsuc 9) ∷ (5, pos 1) ∷ (8, pos 0) ∷ (9, pos 4) ∷ []

youth_bias : (live (blank flash) youth).personality_bias ≡ 131
unfolding live mark_experience
youth_bias = refl

live_example :
    let e = live (blank flash) youth in
    IsSound e
    × (e.trauma_level ≡ traumas youth)
    × (e.success_count ≡ successes youth)
    × (e.total_experiences ≡ length youth)
    × (e.event_head ≡ length youth % 256)
    × (1 ≤ length youth
        → length youth ≤ 42949672
        → get_success_ratio e ≡ successes youth * 100 / length youth)
live_example = live_lem flash youth (omega arith)

abbrev grown : Epigenome
grown = record flash { total_experiences = 4; generation = 255; checksum = 0 }

abbrev sealed : Epigenome
sealed = seal grown

sealed_well : sealed.checksum ≡ checksum_of sealed
unfolding checksum_of
sealed_well = refl

abbrev serene : Epigenome
serene = record flash { personality_bias = 140; resilience = 50; event_head = 7 }
