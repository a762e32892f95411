-- ===== src/Vital/Synapses/Weights/Scaling.antt =====
-- The normalisation after the learning.
use native.Mathlib.Nat.{div-mul-le_self, add-mul, le_of_mul-le-mul_right, div-le_of_le-mul}
use operating_organism.Prelude.{
  ltb, if◌then◌else◌, ltb→lt, Bool-cases, ℕ, zero, suc, ◌+◌, ◌*◌, ◌/◌, ◌≤◌, ◌<◌, ◌≡◌, ap, inl, inr,
  true, arith,
}
use operating_organism.Prelude.Int.{ℤ, pos, negsuc, abs, scale}
use operating_organism.Vital.Synapses.{Link, Synapses, learn_links, hebbian_learning}
use operating_organism.Vital.Synapses.Activation.{InByte}
use operating_organism.Vital.Synapses.Weights.{
  IsLink, sum_weights, IsWired, abs-scale, learn_links_lem,
}

-- The links after the second loop.
abbrev scaled : ℕ → ℕ → (ℕ → Link) → ℕ → Link
scaled count total links i =
    if ltb i count then record (links i) { weight = scale (links i).weight 950 total } else links i

-- A scaled sum, times the divisor, is at most 950 times the sum.
scaled_sum :
    (left i count total : ℕ) (links : ℕ → Link)
    → i + left ≤ count
    → sum_weights left i (scaled count total links) * total ≤ 950 * sum_weights left i links
unfolding sum_weights
scaled_sum zero i count total links h = omega arith
scaled_sum (suc left) i count total links h =
    let rest = scaled_sum left (i + 1) count total links (omega arith) in
    let inside : ltb i count ≡ true = ground (arith, h) in
    let one : abs (scaled count total links i).weight ≡ abs (links i).weight * 950 / total =
      rw inside (abs-scale (links i).weight 950 total) in
    let part : abs (scaled count total links i).weight * total ≤ abs (links i).weight * 950 =
      rw one (div-mul-le_self (abs (links i).weight * 950) total) in
    omega (
      arith,
      rest,
      part,
      add-mul (abs (scaled count total links i).weight)
          (sum_weights left (i + 1) (scaled count total links)) total,
    )

scale_le : (a total : ℕ) → 950 ≤ total → a * 950 / total ≤ a
scale_le a total h = let most : a * 950 ≤ total * a = grind arith in div-le_of_le-mul total most

scale-InByte : (w : ℤ) (total : ℕ) → InByte w → 1000 < total → InByte (scale w 950 total)
scale-InByte (pos n) total h big = ground (arith, h, scale_le n total (omega arith))
scale-InByte (negsuc n) total h big = ground (arith, h, scale_le (suc n) total (omega arith))

scaled-IsLink :
    (count total : ℕ) (links : ℕ → Link)
    → 1000 < total
    → ((k : ℕ) → IsLink (links k))
    → (k : ℕ) → IsLink (scaled count total links k)
scaled-IsLink count total links big v k = elim (Bool-cases (ltb k count)) [
  | inl used ↦ rw used (record {
    weight = scale-InByte (links k).weight total (v k).weight big;
    plasticity = (v k).plasticity;
  })
  | inr unused ↦ rw unused (v k)
]

-- Learning keeps every weight in the range of a signed byte, and leaves the nodes as they are. If
-- every link in use has nodes at both ends, the absolute weights add up to 1000 at most afterwards.
pub learning_lem :
    (s : Synapses)
    → ((k : ℕ) → IsLink (s.links k))
    → let s' = hebbian_learning s in
      ((k : ℕ) → IsLink (s'.links k))
      × (s'.nodes ≡ s.nodes)
      × (s'.link_count ≡ s.link_count)
      × (IsWired s → sum_weights s.link_count 0 s'.links ≤ 1000)
unfolding hebbian_learning
learning_lem s v =
    let (s', total) = learn_links s.link_count 0 s 0 in
    let pass = learn_links_lem s.link_count 0 s 0 in
    let nodes : s'.nodes ≡ s.nodes = ap (λ x. x.nodes) pass.only_links in
    let count : s'.link_count ≡ s.link_count = ap (λ x. x.link_count) pass.only_links in
    elim (Bool-cases (ltb 1000 total)) [
      | inl over ↦
          let big = ltb→lt 1000 total over in
          rw (over, hebbian_learning)
            (
              scaled-IsLink s'.link_count total s'.links big (pass.sound v),
              nodes,
              count,
              λ wired.
                  let sum : total ≡ 0 + sum_weights s.link_count 0 s'.links =
                    pass.counted wired (omega arith) in
                  let shares =
                    scaled_sum s.link_count 0 s'.link_count total s'.links (omega (arith, count)) in
                  let product : sum_weights s.link_count 0 (scaled s'.link_count total s'.links)
                        * total
                      ≤ 950 * total =
                    omega (arith, shares, sum) in
                  let small = le_of_mul-le-mul_right product (omega arith) in omega (arith, small),
            )
      | inr fits ↦
          let few : total ≤ 1000 = ground (arith, fits) in
          rw (fits, hebbian_learning)
            (
              pass.sound v,
              nodes,
              count,
              λ wired. omega (arith, pass.counted wired (omega arith), few),
            )
    ]
