-- ===== src/Vital/Persistence/Rebirth.antt =====
-- What a new incarnation has of the one before.
use operating_organism.Vital.Synapses.Activation.{InByte}
use operating_organism.Vital.Synapses.Lives.{IsSound}
use operating_organism.Prelude.{
  ltb, if◌then◌else◌, ℕ, ◌+◌, ◌*◌, ◌/◌, ◌%◌, ◌≤◌, ◌<◌, ◌≡◌, refl, ap, ◌∙◌, true, some, arith,
}
use operating_organism.Prelude.Int.{ℤ, pos, negsuc}
use operating_organism.Vital.Synapses.{max_links, Link, Synapses}
use operating_organism.Vital.Epigenetics.{import_from}
use operating_organism.Vital.Heart.{Life}
use operating_organism.Vital.Persistence.{
  byte_of, signed, link_size, field_byte, link_byte, export_links, link_at, import_links, SomaDna,
  save, load,
}

signed-byte_of : (w : ℤ) → InByte w → signed (byte_of w) ≡ w
signed-byte_of (pos n) (lo, hi) = ground (arith, lo)
signed-byte_of (negsuc n) (lo, hi) = ground (arith, hi)

link_ext :
    (l : Link) (a b p : ℕ) (w : ℤ)
    → a ≡ l.from_node
    → b ≡ l.to_node
    → w ≡ l.weight
    → p ≡ l.plasticity
    → let m : Link = record { from_node = a; to_node = b; weight = w; plasticity = p } in m ≡ l
link_ext l a b p w e f g h =
    λ i. record { from_node = e i; to_node = f i; weight = g i; plasticity = h i }

module _ (links : ℕ → Link) (buffer : ℕ → ℕ) (size k : ℕ) where
  written : ℕ → ℕ
  written i = if ltb i size then link_byte links i else buffer i

  written_lem :
      (j : ℕ)
      → j < link_size
      → k * link_size + j < size
      → written (k * link_size + j) ≡ field_byte (links k) j
  unfolding written
  written_lem j small inside = rw yes (
      ap (λ i. field_byte (links i) ((k * link_size + j) % link_size)) at
      ∙ ap (field_byte (links k)) offset)
    where
      yes : ltb (k * link_size + j) size ≡ true
      yes = ground (arith, inside)

      at : (k * link_size + j) / link_size ≡ k
      at = omega (arith, small)

      offset : (k * link_size + j) % link_size ≡ j
      offset = omega (arith, small)

  read_back : k * link_size + 3 < size → InByte (links k).weight → link_at written k ≡ links k
  read_back inside fits =
      link_ext (links k) _ _ _ _ (first ∙ written_lem 0 (omega arith) (omega (arith, inside)))
        (written_lem 1 (omega arith) (omega (arith, inside)))
        (ap signed (written_lem 2 (omega arith) (omega (arith, inside)))
          ∙ signed-byte_of (links k).weight fits)
        (written_lem 3 (omega arith) inside)
    where
      first : written (k * link_size) ≡ written (k * link_size + 0)
      first = ap written (omega arith)

-- The size of the export of a network within its bounds.
export_size :
    (s : Synapses) (buffer : ℕ → ℕ)
    → s.link_count ≤ max_links
    → (export_links s buffer 1024).1 ≡ s.link_count * link_size
unfolding export_links
export_size s buffer few = ground (arith, few)

-- Links that are exported and imported into any other network are back, and as many.
import-export :
    (s t : Synapses) (buffer : ℕ → ℕ)
    → s.link_count ≤ max_links
    → ((k : ℕ) → InByte (s.links k).weight)
    → let (bytes, size) = export_links s buffer 1024 in
      let t' = import_links t bytes size in
      (t'.link_count ≡ s.link_count)
      × ((k : ℕ) → k < s.link_count → t'.links k ≡ s.links k)
      × (t'.nodes ≡ t.nodes)
unfolding import_links export_links written
import-export s t buffer few fits =
    let size = export_size s buffer few in
    (
      ground (arith, size, few),
      λ k inside.
          let imported : ltb k (
                if ltb max_links ((export_links s buffer 1024).1 / link_size)
                then max_links
                else (export_links s buffer 1024).1 / link_size)
              ≡ true =
            ground (arith, size, few, inside) in
          rw imported (
            read_back s.links buffer ((export_links s buffer 1024).1) k
              (omega (arith, size, inside)) (fits k)),
      refl,
    )

-- A life whose network is sound is saved, and any other life, as a birth leaves it,
-- loads what was saved: the spark and the links are those of the first; the nodes, with their
-- activations, and the whole epigenetic memory are those of the second.
pub rebirth_lem :
    (l l' : Life) (junk : SomaDna)
    → IsSound l.synapses
    → let after = load l' (some (save l junk)) in
      (after.spark ≡ l.spark)
      × (after.synapses.link_count ≡ l.synapses.link_count)
      × ((k : ℕ) → k < l.synapses.link_count → after.synapses.links k ≡ l.synapses.links k)
      × (after.synapses.nodes ≡ l'.synapses.nodes)
      × (after.epigenome ≡ l'.epigenome)
unfolding load save import_from
rebirth_lem l l' junk v =
    let (count, links, nodes) =
      import-export l.synapses l'.synapses junk.synapse_data v.few_links
        (λ k. (v.links k).weight) in
    (refl, count, links, nodes, refl)
