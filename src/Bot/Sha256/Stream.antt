-- ===== src/Bot/Sha256/Stream.antt =====
-- The hash of bytes fed in one at a time is the hash of the padded message in blocks.
use operating_organism.Prelude.{
  ◌==◌, if◌then◌else◌, Bool-cases, length, set, length-append, length-set, take, drop, replicate,
  length-replicate, take_prefix, drop_prefix, take-suc-set, take_all, u64, ℕ, zero, suc, ◌+◌, ◌-◌,
  ◌*◌, ◌/◌, ◌%◌, ◌≤◌, ◌<◌, ◌≡◌, refl, sym, ap, ◌∙◌, ◌↔◌, inl, inr, true, false, List, [], ◌∷◌, ◌++◌,
  arith,
}
use operating_organism.Bot.Sha256.{
  Words, transform, initial_words, start, update_loop, update, pad_length, be64, padding, digest_of,
  final, sha256,
}
use mathlib.Core.List.{append_assoc}
use native.Mathlib.Numerals.{add-one}

-- The reference: the blocks of 64 bytes of a text, one after the other.
pub compress : ℕ → Words → List ℕ → Words
compress zero s bytes = s
compress (suc blocks) s bytes = compress blocks (transform s (take 64 bytes)) (drop 64 bytes)

pub padded : List ℕ → List ℕ
padded message = message ++ padding (length message)

module _ (j : ℕ) (buf : List ℕ) (x : ℕ) (rest : List ℕ) where
  grown : j < length buf → take (j + 1) (set buf j x) ++ rest ≡ take j buf ++ x ∷ rest
  grown h = rw (add-one, take-suc-set j buf x h) (append_assoc (take j buf) (x ∷ []) rest)

  filled : length buf ≡ 64 → j ≡ 63 → take j buf ++ x ∷ rest ≡ set buf j x ++ rest
  filled room last =
      let whole : take (j + 1) (set buf j x) ≡ set buf j x =
        take_all (j + 1) (set buf j x) (omega (arith, length-set buf j x)) in
      sym (grown (omega arith)) ∙ ap (λ t. t ++ rest) whole

compress_block :
    (blocks : ℕ) (s : Words) (block rest : List ℕ)
    → length block ≡ 64
    → compress (suc blocks) s (block ++ rest) ≡ compress blocks (transform s block) rest
unfolding compress
compress_block blocks s block rest room =
    ap (λ b. compress blocks (transform s b) (drop 64 (block ++ rest)))
      (take_prefix 64 block rest room)
    ∙ ap (compress blocks (transform s block)) (drop_prefix 64 block rest room)

-- One byte, where it fills the buffer and where it does not.
module _ (s : Words) (buf : List ℕ) (j x : ℕ) (rest : List ℕ) where
  update_full :
      (j + 1 == 64) ≡ true
      → update_loop s buf j (x ∷ rest)
        ≡ update_loop (transform s (set buf j x)) (set buf j x) 0 rest
  unfolding update_loop
  update_full full = rw (full, update_loop) refl

  update_more :
      (j + 1 == 64) ≡ false
      → update_loop s buf j (x ∷ rest) ≡ update_loop s (set buf j x) (j + 1) rest
  unfolding update_loop
  update_more more = rw (more, update_loop) refl

-- The loop and the reference agree on the words, and the fill goes round modulo 64.
update_loop_lem :
    (s : Words) (buf : List ℕ) (j : ℕ) (bytes : List ℕ)
    → length buf ≡ 64
    → j < 64
    → let (s', buf', j') = update_loop s buf j bytes in
      (s' ≡ compress ((j + length bytes) / 64) s (take j buf ++ bytes))
      × (length buf' ≡ 64)
      × (j' ≡ (j + length bytes) % 64)
unfolding update_loop compress
update_loop_lem s buf j [] room small =
    let none_full : (j + 0) / 64 ≡ 0 = omega arith in (rw none_full refl, room, omega arith)
update_loop_lem s buf j (x ∷ rest) room small = elim (Bool-cases (j + 1 == 64)) [
  | inl full ↦
      let last : j ≡ 63 = ground (arith, full) in
      let buf' = set buf j x in
      let room' : length buf' ≡ 64 = length-set buf j x ∙ room in
      let ih = update_loop_lem (transform s buf') buf' 0 rest room' (omega arith) in
      let text : take j buf ++ x ∷ rest ≡ buf' ++ rest = filled j buf x rest room last in
      let blocks : (j + suc (length rest)) / 64 ≡ suc ((0 + length rest) / 64) = omega arith in
      rw (update_full s buf j x rest full) (
        rw (blocks, text, compress_block ((0 + length rest) / 64) s buf' rest room') ih.0,
        ih.1,
        omega (arith, ih.2),
      )
  | inr more ↦
      let buf' = set buf j x in
      let room' : length buf' ≡ 64 = length-set buf j x ∙ room in
      let below : j + 1 < 64 = ground (arith, more) in
      let ih = update_loop_lem s buf' (j + 1) rest room' below in
      let text : take (j + 1) buf' ++ rest ≡ take j buf ++ x ∷ rest =
        grown j buf x rest (omega arith) in
      let blocks : j + 1 + length rest ≡ j + suc (length rest) = omega arith in
      rw (update_more s buf j x rest more) (rw (sym text, ← blocks) ih.0, ih.1, rw (← blocks) ih.2)
]

-- A text in two parts is the first and then the second.
update_loop-append :
    (s : Words) (buf : List ℕ) (j : ℕ) (xs ys : List ℕ)
    → update_loop s buf j (xs ++ ys)
      ≡ (let (s', buf', j') = update_loop s buf j xs in update_loop s' buf' j' ys)
unfolding update_loop
update_loop-append s buf j [] ys = refl
update_loop-append s buf j (x ∷ rest) ys =
    let full = j + 1 == 64 in
    update_loop-append (if full then transform s (set buf j x) else s) (set buf j x)
      (if full then 0 else j + 1) rest ys

length-padding : (count : ℕ) → length (padding count) ≡ pad_length (count % 64) + 8
unfolding padding
length-padding count =
    length-append (0x80 ∷ replicate (pad_length (count % 64) - 1) 0) (be64 (u64 (count * 8)))
    ∙ ground (arith, length-replicate (pad_length (count % 64) - 1) (◌*◌ 0 0))

-- The words after a message and a further text.
two_updates :
    (buf message more : List ℕ)
    → length buf ≡ 64
    → length message < 4294967296
    → (update (update (start buf) message) more).state
      ≡ (update_loop initial_words buf 0 (message ++ more)).0
unfolding update
two_updates buf message more room small =
    let first = update_loop_lem initial_words buf 0 message room (omega arith) in
    let (s, b, j) = update_loop initial_words buf 0 message in
    let fill : u64 (0 + length message) % 64 ≡ j = omega (arith, first.2) in
    ap (λ k. (update_loop s b k more).0) fill
    ∙ sym (ap (λ t. t.0) (update_loop-append initial_words buf 0 message more))

count_lem :
    (buf message : List ℕ)
    → length message < 4294967296
    → (update (start buf) message).count ≡ length message
unfolding update
count_lem buf message small = omega arith

sha256_final :
    (buf message : List ℕ)
    → length message < 4294967296
    → sha256 buf message
      ≡ digest_of (update (update (start buf) message) (padding (length message))).state
unfolding sha256 final
sha256_final buf message small =
    let ctx = update (start buf) message in
    ap (λ c. digest_of (update ctx (padding c)).state) (count_lem buf message small)

-- The hash that the three calls compute, whatever the buffer held, is that of the padded message cut
-- into blocks of 64 bytes, for a message whose length fits 32 bits; the padded message has a whole
-- number of blocks. The padding has 64 bytes at most, which its array holds, exactly when the length
-- is below 56 modulo 64.
pub sha256_lem :
    (buf message : List ℕ)
    → length buf ≡ 64
    → length message < 4294967296
    → (sha256 buf message
        ≡ digest_of (compress (length (padded message) / 64) initial_words (padded message)))
      × (length (padded message) % 64 ≡ 0)
      × ((length (padding (length message)) ≤ 64) ↔ (length message % 64 < 56))
unfolding padded
sha256_lem buf message room small =
    let n = length message in
    let whole = update_loop_lem initial_words buf 0 (message ++ padding n) room (omega arith) in
    let no_fill : 0 + length (message ++ padding n) ≡ length (message ++ padding n) = omega arith in
    let sizes = length-padding n in
    (
      sha256_final buf message small
          ∙ ap digest_of (
              two_updates buf message (padding n) room small
              ∙ whole.0
              ∙ ap (λ k. compress (k / 64) initial_words (message ++ padding n)) no_fill),
      ground (arith, length-append message (padding n), sizes),
      ground (arith, sizes),
    )
