-- ===== src/Bot/Threat.antt =====
-- bot-baremetal/instinct/threat_levels.h and threat_state.c: the threat level of the bot.
pub mod Levels
use operating_organism.Prelude.{
  ltb, ◌==◌, if◌then◌else◌, set, get_or, take, replicate, u32, u64, ℕ, ◌+◌, ◌||◌, Option, none,
  some, List, [], ◌∷◌,
}

-- Where the reason of a transition comes from: the first state, a caller's text (its bytes), or
-- the print of a trigger's code, process and confidence, whose 49 bytes at most are never cut.
pub data Reason : Type 0 where
  boot_reason : Reason
  given : List ℕ → Reason
  printed : ℕ → ℕ → ℕ → Reason

abbrev pub dormant : ℕ
dormant = 0

abbrev pub vigilance : ℕ
vigilance = 1

abbrev pub alert : ℕ
alert = 2

abbrev pub combat : ℕ
combat = 3

abbrev pub survival : ℕ
survival = 4

abbrev confinement : ℕ
confinement = 5

-- `level_entered_at` and `time_in_level` are written by no code, and left out.
pub record ThreatState : Type 0 where
  pub current_level : ℕ
  pub previous_level : ℕ
  pub transition_count : ℕ
  pub reason : Reason
  pub entries_per_level : List ℕ

-- `threat_state_init`
unfoldable pub initial : ThreatState
initial = record {
  current_level = dormant;
  previous_level = dormant;
  transition_count = 0;
  reason = boot_reason;
  entries_per_level = replicate 6 0;
}

abbrev pub transition_matrix : List (List ℕ)
transition_matrix =
    (0 ∷ 1 ∷ 0 ∷ 0 ∷ 0 ∷ 0 ∷ [])
    ∷ (1 ∷ 0 ∷ 1 ∷ 0 ∷ 0 ∷ 0 ∷ [])
    ∷ (0 ∷ 1 ∷ 0 ∷ 1 ∷ 0 ∷ 0 ∷ [])
    ∷ (1 ∷ 0 ∷ 1 ∷ 0 ∷ 1 ∷ 1 ∷ [])
    ∷ (0 ∷ 0 ∷ 0 ∷ 1 ∷ 0 ∷ 1 ∷ [])
    ∷ (0 ∷ 0 ∷ 0 ∷ 0 ∷ 1 ∷ 0 ∷ [])
    ∷ []

-- `threat_transition_is_valid`: 1 or 0.
unfoldable pub transition_is_valid : ℕ → ℕ → ℕ
transition_is_valid from to =
    if ltb 5 from || ltb 5 to then 0 else get_or (get_or transition_matrix from []) to 0

-- What `strncpy` into `reason` keeps: 127 bytes. A missing reason leaves the old one.
abbrev store : Reason → Option Reason → Reason
store old none = old
store old (some (given text)) = given (take 127 text)
store old (some r) = r

-- `threat_transition`: the new state, and 1 or 0.
unfoldable pub transition : ThreatState → ℕ → Option Reason → ThreatState × ℕ
transition s new_level why =
    if ltb 5 new_level
    then (s, 0)
    else (if new_level == s.current_level
        then (s, 1)
        else (if transition_is_valid s.current_level new_level == 0 then (s, 0) else (
          record {
            current_level = new_level;
            previous_level = s.current_level;
            transition_count = u64 (s.transition_count + 1);
            reason = store s.reason why;
            entries_per_level =
                set s.entries_per_level new_level
                  (u32 (get_or s.entries_per_level new_level 0 + 1));
          },
          1,
        )))
