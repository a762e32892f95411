-- ===== src/Bot/Sha256.antt =====
-- bot-baremetal/core/bot_dna.c: the SHA-256 that the file brings along.
pub mod Stream
use operating_organism.Prelude.{
  ltb, ◌==◌, if◌then◌else◌, length, set, get_or, replicate, u32, u64, ℕ, zero, suc, ◌+◌, ◌-◌, ◌*◌,
  ◌/◌, ◌%◌, ◌^◌, bit_and, bit_or, bit_xor, List, [], ◌∷◌, ◌++◌,
}

-- The eight words of `sha256_ctx_t.state`, as the names that `sha256_transform` gives them.
pub record Words : Type 0 where
  pub a : ℕ
  pub b : ℕ
  pub c : ℕ
  pub d : ℕ
  pub e : ℕ
  pub f : ℕ
  pub g : ℕ
  pub h : ℕ

-- `sha256_ctx_t`
pub record Context : Type 0 where
  pub state : Words
  pub count : ℕ
  pub buf : List ℕ

-- `K`
abbrev round_constants : List ℕ
round_constants =
    0x428a2f98 ∷ 0x71374491 ∷ 0xb5c0fbcf ∷ 0xe9b5dba5 ∷ 0x3956c25b ∷ 0x59f111f1 ∷ 0x923f82a4
    ∷ 0xab1c5ed5 ∷ 0xd807aa98 ∷ 0x12835b01 ∷ 0x243185be ∷ 0x550c7dc3 ∷ 0x72be5d74 ∷ 0x80deb1fe
    ∷ 0x9bdc06a7 ∷ 0xc19bf174 ∷ 0xe49b69c1 ∷ 0xefbe4786 ∷ 0x0fc19dc6 ∷ 0x240ca1cc ∷ 0x2de92c6f
    ∷ 0x4a7484aa ∷ 0x5cb0a9dc ∷ 0x76f988da ∷ 0x983e5152 ∷ 0xa831c66d ∷ 0xb00327c8 ∷ 0xbf597fc7
    ∷ 0xc6e00bf3 ∷ 0xd5a79147 ∷ 0x06ca6351 ∷ 0x14292967 ∷ 0x27b70a85 ∷ 0x2e1b2138 ∷ 0x4d2c6dfc
    ∷ 0x53380d13 ∷ 0x650a7354 ∷ 0x766a0abb ∷ 0x81c2c92e ∷ 0x92722c85 ∷ 0xa2bfe8a1 ∷ 0xa81a664b
    ∷ 0xc24b8b70 ∷ 0xc76c51a3 ∷ 0xd192e819 ∷ 0xd6990624 ∷ 0xf40e3585 ∷ 0x106aa070 ∷ 0x19a4c116
    ∷ 0x1e376c08 ∷ 0x2748774c ∷ 0x34b0bcb5 ∷ 0x391c0cb3 ∷ 0x4ed8aa4a ∷ 0x5b9cca4f ∷ 0x682e6ff3
    ∷ 0x748f82ee ∷ 0x78a5636f ∷ 0x84c87814 ∷ 0x8cc70208 ∷ 0x90befffa ∷ 0xa4506ceb ∷ 0xbef9a3f7
    ∷ 0xc67178f2 ∷ []

-- `ROR32`
abbrev ror32 : ℕ → ℕ → ℕ
ror32 x n = bit_or (x / 2 ^ n) (u32 (x * 2 ^ (32 - n)))

-- `S0`, `S1`, `R0` and `R1`
abbrev big_sigma0 : ℕ → ℕ
big_sigma0 x = bit_xor (bit_xor (ror32 x 2) (ror32 x 13)) (ror32 x 22)

abbrev big_sigma1 : ℕ → ℕ
big_sigma1 x = bit_xor (bit_xor (ror32 x 6) (ror32 x 11)) (ror32 x 25)

abbrev small_sigma0 : ℕ → ℕ
small_sigma0 x = bit_xor (bit_xor (ror32 x 7) (ror32 x 18)) (x / 2 ^ 3)

abbrev small_sigma1 : ℕ → ℕ
small_sigma1 x = bit_xor (bit_xor (ror32 x 17) (ror32 x 19)) (x / 2 ^ 10)

-- `Ch` and `Maj`; `~x` is `4294967295 - x`.
abbrev choose : ℕ → ℕ → ℕ → ℕ
choose x y z = bit_xor (bit_and x y) (bit_and (4294967295 - x) z)

abbrev majority : ℕ → ℕ → ℕ → ℕ
majority x y z = bit_xor (bit_xor (bit_and x y) (bit_and x z)) (bit_and y z)

-- The first loop of `sha256_transform`: big-endian words from the bytes at `at`.
load_words : ℕ → ℕ → List ℕ → List ℕ
load_words zero at bytes = []
load_words (suc left) at bytes =
    bit_or
      (bit_or (bit_or (get_or bytes at 0 * 2 ^ 24) (get_or bytes (at + 1) 0 * 2 ^ 16))
        (get_or bytes (at + 2) 0 * 2 ^ 8))
      (get_or bytes (at + 3) 0)
    ∷ load_words left (at + 4) bytes

-- The second loop: the word at `i` from those before it.
abbrev next_word : ℕ → List ℕ → ℕ
next_word i w = u32 (
    small_sigma1 (get_or w (i - 2) 0)
    + get_or w (i - 7) 0
    + small_sigma0 (get_or w (i - 15) 0)
    + get_or w (i - 16) 0)

extend_words : ℕ → ℕ → List ℕ → List ℕ
extend_words zero i w = w
extend_words (suc left) i w = extend_words left (i + 1) (w ++ (next_word i w ∷ []))

-- One round of the third loop, and the loop.
abbrev round : Words → ℕ → ℕ → Words
round s k w =
    let t₁ = u32 (s.h + big_sigma1 s.e + choose s.e s.f s.g + k + w) in
    let t₂ = u32 (big_sigma0 s.a + majority s.a s.b s.c) in
    record {
      a = u32 (t₁ + t₂);
      b = s.a;
      c = s.b;
      d = s.c;
      e = u32 (s.d + t₁);
      f = s.e;
      g = s.f;
      h = s.g;
    }

rounds : Words → List ℕ → List ℕ → Words
rounds s [] ws = s
rounds s (k ∷ ks) [] = s
rounds s (k ∷ ks) (w ∷ ws) = rounds (round s k w) ks ws

-- `sha256_transform`
unfoldable pub transform : Words → List ℕ → Words
unfolding load_words extend_words rounds
transform s bytes =
    let r = rounds s round_constants (extend_words 48 16 (load_words 16 0 bytes)) in
    record {
      a = u32 (s.a + r.a);
      b = u32 (s.b + r.b);
      c = u32 (s.c + r.c);
      d = u32 (s.d + r.d);
      e = u32 (s.e + r.e);
      f = u32 (s.f + r.f);
      g = u32 (s.g + r.g);
      h = u32 (s.h + r.h);
    }

abbrev pub initial_words : Words
initial_words = record {
  a = 0x6a09e667;
  b = 0xbb67ae85;
  c = 0x3c6ef372;
  d = 0xa54ff53a;
  e = 0x510e527f;
  f = 0x9b05688c;
  g = 0x1f83d9ab;
  h = 0x5be0cd19;
}

-- `sha256_init`: the buffer keeps what was in it.
abbrev pub start : List ℕ → Context
start buf = record { state = initial_words; count = 0; buf = buf }

-- The loop of `sha256_update`, on the bytes left: the words, the buffer and its fill `j`.
unfoldable pub update_loop : Words → List ℕ → ℕ → List ℕ → Words × List ℕ × ℕ
update_loop s buf j [] = (s, buf, j)
update_loop s buf j (x ∷ rest) =
    let buf' = set buf j x in
    let full = j + 1 == 64 in
    update_loop (if full then transform s buf' else s) buf' (if full then 0 else j + 1) rest

-- `sha256_update`
unfoldable pub update : Context → List ℕ → Context
unfolding update_loop
update ctx bytes =
    let (s, buf, j) = update_loop ctx.state ctx.buf (ctx.count % 64) bytes in
    record { state = s; count = u64 (ctx.count + length bytes); buf = buf }

-- `plen` of `sha256_final`
abbrev pub pad_length : ℕ → ℕ
pad_length j = if ltb j 56 then 56 - j else 120 - j

-- The eight bytes of the number of bits, the highest first.
abbrev pub be64 : ℕ → List ℕ
be64 n =
    n / 2 ^ 56 % 256
    ∷ n / 2 ^ 48 % 256
    ∷ n / 2 ^ 40 % 256
    ∷ n / 2 ^ 32 % 256
    ∷ n / 2 ^ 24 % 256
    ∷ n / 2 ^ 16 % 256
    ∷ n / 2 ^ 8 % 256
    ∷ n % 256
    ∷ []

-- The bytes that `sha256_final` writes to `pad` and feeds in.
unfoldable pub padding : ℕ → List ℕ
padding count = (0x80 ∷ replicate (pad_length (count % 64) - 1) 0) ++ be64 (u64 (count * 8))

abbrev be32 : ℕ → List ℕ
be32 n = n / 2 ^ 24 % 256 ∷ n / 2 ^ 16 % 256 ∷ n / 2 ^ 8 % 256 ∷ n % 256 ∷ []

abbrev pub digest_of : Words → List ℕ
digest_of s =
    be32 s.a ++ be32 s.b ++ be32 s.c ++ be32 s.d ++ be32 s.e ++ be32 s.f ++ be32 s.g ++ be32 s.h

-- `sha256_final`
unfoldable pub final : Context → List ℕ
unfolding update padding
final ctx = digest_of (update ctx (padding ctx.count)).state

-- The three calls of `_bot_dna_compute_hash` on a message.
unfoldable pub sha256 : List ℕ → List ℕ → List ℕ
unfolding update final
sha256 buf message = final (update (start buf) message)
