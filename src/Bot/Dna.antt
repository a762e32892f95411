-- ===== src/Bot/Dna.antt =====
-- bot-baremetal/core/bot_dna.h and bot_dna.c: what an agent is, sealed by its hash.
pub mod Sealing
pub mod Store
mod Examples
use Prim.Native.Char.{code}
use Prim.Native.String.{String}
use operating_organism.Prelude.{
  ltb, leb, ◌==◌, if◌then◌else◌, length, set, get_or, take, replicate, u32, ℕ, zero, suc, ◌+◌, ◌-◌,
  ◌/◌, ◌%◌, ◌^◌, bit_and, Bool, true, false, ◌&&◌, Option, none, some, List, [], ◌∷◌, ◌++◌,
}
use operating_organism.Bot.Sha256.{sha256}

-- `AgentRole`, in the order of the values 0x00 to 0x06, 0x10 to 0x13, 0x20, 0x21, 0x30, 0x31, 0xFF.
pub data AgentRole : Type 0 where
  role_none mem_watch net_watch fs_watch proc_watch kernel_watch boot_watch : AgentRole
  quarantine honey_trap neutralizer chameleon : AgentRole
  mimicry mutation : AgentRole
  regen oo_bridge swarm_mind : AgentRole

abbrev role_code : AgentRole → ℕ
role_code role_none = 0x00
role_code mem_watch = 0x01
role_code net_watch = 0x02
role_code fs_watch = 0x03
role_code proc_watch = 0x04
role_code kernel_watch = 0x05
role_code boot_watch = 0x06
role_code quarantine = 0x10
role_code honey_trap = 0x11
role_code neutralizer = 0x12
role_code chameleon = 0x13
role_code mimicry = 0x20
role_code mutation = 0x21
role_code regen = 0x30
role_code oo_bridge = 0x31
role_code swarm_mind = 0xFF

-- `BehaviorPattern`; the last seven bytes are its padding.
pub record Pattern : Type 0 where
  pub signature : List ℕ
  pub threat_domain : ℕ
  pub confidence : ℕ
  pub learned_at : ℕ
  pub hit_count : ℕ
  pub active : ℕ
  pub pad : List ℕ

-- `BotDNA`, with the four bytes of alignment behind `pattern_count`.
pub record Dna : Type 0 where
  pub magic : ℕ
  pub version : ℕ
  pub agent_id : List ℕ
  pub role : ℕ
  pub generation : ℕ
  pub name : List ℕ
  pub capabilities : ℕ
  pub threat_domains : ℕ
  pub current_threat_level : ℕ
  pub learned_patterns : List Pattern
  pub pattern_count : ℕ
  pub gap : List ℕ
  pub threats_detected : ℕ
  pub threats_neutralized : ℕ
  pub false_positives : ℕ
  pub birth_time : ℕ
  pub last_regen_time : ℕ
  pub regen_count : ℕ
  pub integrity_hash : List ℕ
  pub is_healthy : ℕ
  pub prime_directives : List ℕ
  pub reserved : List ℕ

abbrev pub dna_magic : ℕ
dna_magic = 0x424F5444

abbrev pub dna_version : ℕ
dna_version = 1

abbrev pub max_patterns : ℕ
max_patterns = 64

abbrev prime_dir_len : ℕ
prime_dir_len = 256

-- A number in memory, the lowest byte first.
abbrev le32 : ℕ → List ℕ
le32 n = n % 256 ∷ n / 2 ^ 8 % 256 ∷ n / 2 ^ 16 % 256 ∷ n / 2 ^ 24 % 256 ∷ []

abbrev le64 : ℕ → List ℕ
le64 n = le32 n ++ le32 (n / 2 ^ 32)

pattern_bytes : Pattern → List ℕ
pattern_bytes p =
    p.signature
    ++ (le32 p.threat_domain
        ++ (le32 p.confidence
            ++ (le64 p.learned_at ++ (le64 p.hit_count ++ ((p.active ∷ []) ++ p.pad)))))

all_pattern_bytes : List Pattern → List ℕ
unfolding pattern_bytes
all_pattern_bytes [] = []
all_pattern_bytes (p ∷ ps) = pattern_bytes p ++ all_pattern_bytes ps

-- The bytes of the struct before `integrity_hash`.
pub hashed_bytes : Dna → List ℕ
unfolding all_pattern_bytes
hashed_bytes d =
    le32 d.magic
    ++ (le32 d.version
        ++ (d.agent_id
            ++ (le32 d.role
                ++ (le32 d.generation
                    ++ (d.name
                        ++ (le64 d.capabilities
                            ++ (le32 d.threat_domains
                                ++ (le32 d.current_threat_level
                                    ++ (all_pattern_bytes d.learned_patterns
                                        ++ (le32 d.pattern_count
                                            ++ (d.gap
                                                ++ (le64 d.threats_detected
                                                    ++ (le64 d.threats_neutralized
                                                        ++ (le64 d.false_positives
                                                            ++ (le64 d.birth_time
                                                            ++ (le64 d.last_regen_time
                                                            ++ le32 d.regen_count))))))))))))))))

-- `_bot_dna_compute_hash`. What the stack held in the buffer of the context does not matter
-- (Sha256.Stream), and is taken to be zero.
unfoldable pub compute_hash : Dna → List ℕ
compute_hash d = sha256 (replicate 64 0) (hashed_bytes d)

-- The last statement of the operations that change the hashed fields.
abbrev pub seal : Dna → Dna
seal d = record d { integrity_hash = compute_hash d }

abbrev pub blank_pattern : Pattern
blank_pattern = record {
  signature = replicate 32 0;
  threat_domain = 0;
  confidence = 0;
  learned_at = 0;
  hit_count = 0;
  active = 0;
  pad = replicate 7 0;
}

-- `memset(dna, 0, sizeof(BotDNA))`
abbrev pub zeroed : Dna
zeroed = record {
  magic = 0;
  version = 0;
  agent_id = replicate 16 0;
  role = 0;
  generation = 0;
  name = replicate 32 0;
  capabilities = 0;
  threat_domains = 0;
  current_threat_level = 0;
  learned_patterns = replicate max_patterns blank_pattern;
  pattern_count = 0;
  gap = replicate 4 0;
  threats_detected = 0;
  threats_neutralized = 0;
  false_positives = 0;
  birth_time = 0;
  last_regen_time = 0;
  regen_count = 0;
  integrity_hash = replicate 32 0;
  is_healthy = 0;
  prime_directives = replicate prime_dir_len 0;
  reserved = replicate 67 0;
}

-- The bytes of a text.
abbrev codes : String → List ℕ
codes String.[] = []
codes (String.◌∷◌ c s) = code c ∷ codes s

-- `BOT_PRIME_DIRECTIVES`
abbrev pub directives_text : List ℕ
directives_text =
    codes
      "1:SURVIVE_BEFORE_ALL\n2:PROTECT_OPERATING_ORGANISM\n3:LEARN_FROM_EVERY_THREAT\n4:NEVER_CORRUPT_SOMA\n5:NEVER_ACT_WITHOUT_EVIDENCE\n6:JOURNAL_EVERY_ACTION\n7:RESPECT_OO_HIERARCHY\n8:SHARE_KNOWLEDGE_WITH_SWARM\n9:REGENERATE_FALLEN_AGENTS\n10:ISOLATE_BEFORE_NEUTRALIZE\n"

-- A copy to the start of a zeroed array of `n` bytes.
abbrev pub fill_array : ℕ → List ℕ → List ℕ
fill_array n text = text ++ replicate (n - length text) 0

-- The bits of `THREAT_DOMAIN_`, of which each role takes two different ones: `|` is their sum.
abbrev domains_of : AgentRole → ℕ
domains_of mem_watch = 2 ^ 0 + 2 ^ 3
domains_of net_watch = 2 ^ 2 + 2 ^ 6
domains_of fs_watch = 2 ^ 4 + 2 ^ 2
domains_of proc_watch = 2 ^ 0 + 2 ^ 1
domains_of kernel_watch = 2 ^ 3 + 2 ^ 7
domains_of boot_watch = 2 ^ 3 + 2 ^ 7
domains_of swarm_mind = 0xFF
domains_of role_none = 0
domains_of quarantine = 0
domains_of honey_trap = 0
domains_of neutralizer = 0
domains_of chameleon = 0
domains_of mimicry = 0
domains_of mutation = 0
domains_of regen = 0
domains_of oo_bridge = 0

-- What `memcpy` takes of the directives.
abbrev pub sealed_directives : List ℕ
sealed_directives =
    let len =
      if leb prime_dir_len (length directives_text)
      then prime_dir_len - 1
      else length directives_text in
    take len directives_text

abbrev unnamed : List ℕ
unnamed = codes "unnamed"

abbrev or_default : Option (List ℕ) → List ℕ → List ℕ
or_default none d = d
or_default (some n) d = n

-- `bot_dna_init`. The name is its bytes before the ending zero.
unfoldable pub init : AgentRole → Option (List ℕ) → Dna
init role name = seal (record zeroed {
  magic = dna_magic;
  version = dna_version;
  role = role_code role;
  generation = 1;
  is_healthy = 1;
  name = fill_array 32 (take 31 (or_default name unnamed));
  threat_domains = domains_of role;
  prime_directives = fill_array prime_dir_len sealed_directives;
})

-- `memcmp(a, b, 32) == 0`
pub bytes_eq : ℕ → List ℕ → List ℕ → Bool
bytes_eq zero a b = true
bytes_eq (suc n) a b = get_or a n 0 == get_or b n 0 && bytes_eq n a b

-- `bot_dna_verify`
unfoldable pub verify : Dna → Bool
verify d =
    d.magic == dna_magic
    && d.version == dna_version
    && bytes_eq 32 (compute_hash d) d.integrity_hash

-- `bot_dna_add_pattern`: true for its 0, false for its -1.
unfoldable pub add_pattern : Dna → Pattern → Dna × Bool
add_pattern d p = if leb max_patterns d.pattern_count then (d, false) else (
  seal (record d {
    learned_patterns = set d.learned_patterns d.pattern_count p;
    pattern_count = u32 (d.pattern_count + 1);
  }),
  true,
)

-- `sizeof(BotDNA)`: 4228 bytes before the hash, 32 of it, 1, 256, 64 and 3 of alignment.
abbrev pub dna_size : ℕ
dna_size = 4228 + 32 + 1 + 256 + 64 + 3

-- `bot_dna_serialize` into a buffer of a length: the copy and the result, if there is room.
unfoldable pub serialize : Dna → ℕ → Option (Dna × ℕ)
serialize d buf_len = if ltb buf_len dna_size then none else some (d, dna_size)

-- `bot_dna_deserialize` from a buffer that holds the bytes of `image`: the struct and whether it was
-- taken (0 or -1).
unfoldable pub deserialize : Dna → Dna → ℕ → Dna × Bool
deserialize d image buf_len =
    if ltb buf_len dna_size
    then (d, false)
    else if verify image
    then (image, true)
    else (zeroed, false)

-- `BOT_DNA_IS_VALID`, `BOT_HAS_DOMAIN` and `BOT_IS_ROLE`
unfoldable pub is_valid : Dna → Bool
is_valid d = d.magic == dna_magic && verify d

unfoldable has_domain : Dna → ℕ → Bool
has_domain d domain = ltb 0 (bit_and d.threat_domains domain)

unfoldable is_role : Dna → AgentRole → Bool
is_role d r = d.role == role_code r
