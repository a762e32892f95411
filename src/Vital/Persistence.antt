-- ===== src/Vital/Persistence.antt =====
-- What survives a restart: the links of the network as bytes (the last part of
-- vital-baremetal/src/synapse_network.c) and the Soma-DNA on disk (src/vital_persistence.c).
pub mod Rebirth
use operating_organism.Prelude.{
  ltb, ◌==◌, if◌then◌else◌, u8, ℕ, zero, suc, ◌+◌, ◌-◌, ◌*◌, ◌/◌, ◌%◌, Option, none, some,
}
use operating_organism.Prelude.Int.{ℤ, pos, negsuc}
use operating_organism.Vital.Spark.{Spark}
use operating_organism.Vital.Synapses.{max_links, Link, Synapses}
use operating_organism.Vital.Epigenetics.{Epigenome, export_to, import_from}
use operating_organism.Vital.Heart.{Life}

-- A signed byte as a byte, and back.
abbrev pub byte_of : ℤ → ℕ
byte_of (pos n) = u8 n
byte_of (negsuc n) = u8 (255 - n)

abbrev pub signed : ℕ → ℤ
signed b = if ltb b 128 then pos b else negsuc (255 - b)

-- `sizeof(oo_synapse_link_t)`
abbrev pub link_size : ℕ
link_size = 4

-- The byte at an offset in a link, and in the array of links.
abbrev pub field_byte : Link → ℕ → ℕ
field_byte l zero = l.from_node
field_byte l (suc zero) = l.to_node
field_byte l (suc (suc zero)) = byte_of l.weight
field_byte l (suc (suc (suc n))) = l.plasticity

abbrev pub link_byte : (ℕ → Link) → ℕ → ℕ
link_byte links i = field_byte (links (i / link_size)) (i % link_size)

-- `synapse_export_links`: the buffer after it, and the size.
unfoldable pub export_links : Synapses → (ℕ → ℕ) → ℕ → (ℕ → ℕ) × ℕ
export_links s buffer max_size =
    let all = s.link_count * link_size in
    let size = if ltb max_size all then max_size else all in
    (λ i. if ltb i size then link_byte s.links i else buffer i, size)

-- The link that stands at a number in a buffer.
abbrev pub link_at : (ℕ → ℕ) → ℕ → Link
link_at buffer k = record {
  from_node = buffer (k * link_size);
  to_node = buffer (k * link_size + 1);
  weight = signed (buffer (k * link_size + 2));
  plasticity = buffer (k * link_size + 3);
}

-- `synapse_import_links`
unfoldable pub import_links : Synapses → (ℕ → ℕ) → ℕ → Synapses
import_links s buffer size =
    let whole = size / link_size in
    let count = if ltb max_links whole then max_links else whole in
    record s {
      links = λ k. if ltb k count then link_at buffer k else s.links k;
      link_count = u8 count;
    }

-- `SomaDNA`; the fields that nothing reads or writes are left out.
pub record SomaDna : Type 0 where
  pub magic : ℕ
  pub version : ℕ
  pub spark : Spark
  pub synapse_size : ℕ
  pub synapse_data : ℕ → ℕ
  pub epigenetic_data : Epigenome

-- `DNA_MAGIC`
abbrev soma_magic : ℕ
soma_magic = 0x414E444F

-- `vital_persistence_save`: what it writes, on a stack that holds `junk`.
unfoldable pub save : Life → SomaDna → SomaDna
unfolding export_links export_to
save l junk =
    let (bytes, size) = export_links l.synapses junk.synapse_data 1024 in
    record {
      magic = soma_magic;
      version = 1;
      spark = l.spark;
      synapse_size = size;
      synapse_data = bytes;
      epigenetic_data = elim ((export_to l.epigenome 512).1) [
        | none ↦ junk.epigenetic_data
        | some e ↦ e
      ];
    }

-- `vital_persistence_load`, of what the disk answers, if it has the file and reads some of it.
unfoldable pub load : Life → Option SomaDna → Life
unfolding import_links import_from
load l none = l
load l (some dna) =
    if dna.magic == soma_magic
    then record l {
      synapses = import_links l.synapses dna.synapse_data dna.synapse_size;
      spark = dna.spark;
      epigenome = import_from l.epigenome dna.epigenetic_data 512;
    }
    else l
