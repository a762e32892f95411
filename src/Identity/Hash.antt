-- ===== src/Identity/Hash.antt =====
-- What a signature tells of a region.
use operating_organism.Prelude.{
  get_or, u64, All, ℕ, ◌*◌, ◌^◌, ◌<◌, bit_xor, ◌≡◌, refl, sym, ap, ◌∙◌, ◌≢◌, List, [], ◌∷◌, ◌++◌,
  arith,
}
use operating_organism.Prelude.Xor.{
  bit_xor-cancel_right, bit_xor-cancel_left, bit_xor_zero, bit_xor_small,
}
use operating_organism.Identity.{fnv_step, fnv1a, signature_of, calculate_dna}

-- The multiplication of a round is undone by that with the inverse of the prime.
unscale : (n : ℕ) → n < 2 ^ 64 → u64 (u64 (n * 0x100000001b3) * 0xCE965057AFF6957B) ≡ n
unscale n h = omega (arith, h)

fnv_step_small : (hash b : ℕ) → fnv_step hash b < 2 ^ 64
fnv_step_small hash b = omega arith

-- A round loses nothing: with the same byte, different states stay different.
fnv_step-cancel :
    (h k a b : ℕ)
    → h < 2 ^ 64
    → k < 2 ^ 64
    → a < 256
    → b < 256
    → fnv_step h a ≡ fnv_step k b
    → bit_xor h a ≡ bit_xor k b
fnv_step-cancel h k a b hs ks as_ bs e =
    sym (unscale (bit_xor h a) (bit_xor_small 64 h a hs (omega (arith, as_))))
    ∙ ap (λ n. u64 (n * 0xCE965057AFF6957B)) e
    ∙ unscale (bit_xor k b) (bit_xor_small 64 k b ks (omega (arith, bs)))

fnv1a-small : (h : ℕ) (bytes : List ℕ) → h < 2 ^ 64 → fnv1a h bytes < 2 ^ 64
unfolding fnv1a
fnv1a-small h [] l = l
fnv1a-small h (b ∷ bytes) l = fnv1a-small (fnv_step h b) bytes (fnv_step_small h b)

fnv1a-append : (h : ℕ) (xs ys : List ℕ) → fnv1a h (xs ++ ys) ≡ fnv1a (fnv1a h xs) ys
unfolding fnv1a
fnv1a-append h [] ys = refl
fnv1a-append h (x ∷ xs) ys = fnv1a-append (fnv_step h x) xs ys

fnv1a-cancel :
    (h k : ℕ) (bytes : List ℕ)
    → h < 2 ^ 64
    → k < 2 ^ 64
    → All (λ b. b < 256) bytes
    → fnv1a h bytes ≡ fnv1a k bytes
    → h ≡ k
unfolding fnv1a
fnv1a-cancel h k [] hs ks small e = e
fnv1a-cancel h k (b ∷ bytes) hs ks (bs, small) e = bit_xor-cancel_right h k b (
    fnv_step-cancel h k b b hs ks bs bs (
      fnv1a-cancel (fnv_step h b) (fnv_step k b) bytes (fnv_step_small h b) (fnv_step_small k b)
        small e))

-- The first eight bytes of a signature are those of the hash.
signature_of-cancel : (h k : ℕ) → h < 2 ^ 64 → k < 2 ^ 64 → signature_of h ≡ signature_of k → h ≡ k
unfolding signature_of
signature_of-cancel h k hs ks e =
    let byte : (i : ℕ) → get_or (signature_of h) i 0 ≡ get_or (signature_of k) i 0 =
      λ i. ap (λ l. get_or l i 0) e in
    let zero_h = bit_xor_zero h in
    let zero_k = bit_xor_zero k in
    omega (
      arith,
      hs,
      ks,
      zero_h,
      zero_k,
      byte 0,
      byte 1,
      byte 2,
      byte 3,
      byte 4,
      byte 5,
      byte 6,
      byte 7,
    )

-- Two regions that differ in one byte, wherever it is, have different signatures.
pub calculate_dna-detects :
    (before after : List ℕ) (a b : ℕ)
    → a < 256
    → b < 256
    → All (λ x. x < 256) after
    → a ≢ b
    → calculate_dna (before ++ (a ∷ after)) ≢ calculate_dna (before ++ (b ∷ after))
unfolding calculate_dna fnv1a
calculate_dna-detects before after a b la lb small differ e =
    let start : ℕ = 0xcbf29ce484222325 in
    let h = fnv1a start before in
    let hs = fnv1a-small start before (omega arith) in
    let same =
      signature_of-cancel (fnv1a start (before ++ (a ∷ after)))
        (fnv1a start (before ++ (b ∷ after)))
        (fnv1a-small start (before ++ (a ∷ after)) (omega arith))
        (fnv1a-small start (before ++ (b ∷ after)) (omega arith)) e in
    let rounds =
      fnv1a-cancel (fnv_step h a) (fnv_step h b) after (fnv_step_small h a) (fnv_step_small h b)
        small
        (sym (fnv1a-append start before (a ∷ after))
          ∙ same
          ∙ fnv1a-append start before (b ∷ after)) in
    differ (bit_xor-cancel_left a b h (fnv_step-cancel h h a b hs hs la lb rounds))
