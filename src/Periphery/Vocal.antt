-- ===== src/Periphery/Vocal.antt =====
-- The voice (vocal-baremetal/src/speaker_vocal.c): a tone of the speaker. What is written to the
-- ports is a list of ports and values, in order.
pub mod Pitch
use operating_organism.Prelude.{◌==◌, if◌then◌else◌, u8, ℕ, ◌/◌, ◌%◌, ◌^◌, bit_or, List, [], ◌∷◌}

-- `vocal_emit_tone`, with the answer `tmp` of the port 0x61.
unfoldable pub emit_tone : ℕ → ℕ → List (ℕ × ℕ)
emit_tone frequency tmp =
    if frequency == 0
    then []
    else (let div = 1193180 / frequency in
        (0x43, 0xB6)
        ∷ (0x42, u8 (div % 256))
        ∷ (0x42, u8 (div / 2 ^ 8 % 256))
        ∷ (if tmp == bit_or tmp 3 then [] else (0x61, u8 (bit_or tmp 3)) ∷ []))
