-- ===== src/Vital/Epigenetics/Reboot.antt =====
-- What a memory outlives: restarts, and the storage on disk.
use operating_organism.Prelude.{u8, ℕ, ◌+◌, ◌<◌, ◌≡◌, sym, ap, ◌∙◌, ◌≢◌, arith}
use operating_organism.Prelude.Xor.{bit_xor-cancel_left}
use operating_organism.Vital.Epigenetics.{Epigenome, checksum_of, blank, init}

-- Another generation has another checksum.
generation_shows :
    (m : Epigenome) (g : ℕ)
    → m.generation ≢ g
    → checksum_of (record m { generation = g }) ≢ checksum_of m
unfolding checksum_of
generation_shows m g other same = other (sym (bit_xor-cancel_left g m.generation _ same))

init_remembers :
    (m : Epigenome)
    → 0 < m.total_experiences
    → m.checksum ≡ checksum_of m
    → init m ≡ record m { generation = u8 (m.generation + 1) }
unfolding init
init_remembers m some_life sealed = ground arith

init_erases : (m : Epigenome) → m.checksum ≢ checksum_of m → init m ≡ blank m
unfolding init
init_erases m broken = ground arith

-- A memory with experiences under a right checksum survives one restart, which counts a generation,
-- and not a second one that follows: it finds the checksum of the generation before, and erases all.
second_reboot_forgets :
    (m : Epigenome)
    → m.generation < 256
    → 0 < m.total_experiences
    → m.checksum ≡ checksum_of m
    → (init m ≡ record m { generation = u8 (m.generation + 1) }) × (init (init m) ≡ blank m)
second_reboot_forgets m small some_life sealed =
    let aged = record m { generation = u8 (m.generation + 1) } in
    let first = init_remembers m some_life sealed in
    (
      first,
      ap init first
          ∙ init_erases aged
              (λ h. generation_shows m aged.generation (omega arith) (sym h ∙ sealed)),
    )
