-- ===== src/Lib.antt =====
-- The Operating Organism, a system of "organs" written in C that live on one message bus.
--
-- The parts and how they meet. Each organ publishes its health in a registry and sends "globules"
-- over a ring buffer, the united bus. A control tick evaluates the homeostasis mode from the
-- registry, asks three planes for a decision, resolves them by urgency and exhales a telemetry
-- frame. The brainstem schedules the organs' entry points. The bot, the immune part, reacts to
-- triggers by a table of reflexes, keeps a threat level, and maps its surroundings. The memory
-- gives out cells of 4096 bytes, one at a time or in blocks. The vital parts hold a state of
-- consciousness, pain, energy budgets and regulated parameters; pain acts on consciousness,
-- famine causes pain, and both speak on the bus. The thymus knows the signatures of the self, and
-- is asked by the mutations and by the swarm. The network turns frames into globules. The life
-- loop holds the vital parts together: a beat is some fifteen layers, each of which acts on the
-- parts that the ones before it left.
--
-- Files and sources (functions carry the C names without their prefix):
--   Bus           united-baremetal/src/united_bus.c, include/united_bus.h
--   Organs        control-planes/src/oo_organ_state.c
--   Homeostasis   control-planes/src/oo_homeostasis_mode.c
--   Planes        control-planes/src/{reflex_engine,strategic_brain,organ_autonomy}.c; its children
--                 Telemetry and Tick: oo_telemetry.c and control_tick.c
--   Scheduler     kernel-baremetal/src/oo_scheduler.c
--   Bot           bot-baremetal: Threat (instinct/threat_state.c, threat_levels.h), Instinct
--                 (instinct/instinct_layer.c), Territory (core/territory_map.c); History is the
--                 ring of the 256 latest records that both keep; Sha256 and Dna (core/bot_dna.c,
--                 bot_dna.h), the sealed description of an agent
--   Memory        memory-baremetal/src/bio_alloc.c; Hedged (hedged_malloc.c), copies on top of
--                 it, and Channels (hedged_read.c), words kept in several places
--   Vital         vital-baremetal/src: Consciousness (consciousness_fsm.c), Nociception
--                 (nociception.c), Metabolism (energy_metabolism.c), Regulator
--                 (homeostasis_regulator.c), Synapses (synapse_network.c), Epigenetics
--                 (epigenetics.c), Dreams (dream_simulator.c), Spark (vital_spark.h,
--                 aura_visualizer.c), Forth (metabolic_forth.c), Pineal (pineal_gland.c), and
--                 Heart, the life loop that calls them all (life_loop.c, biotic_entropy.c);
--                 Persistence (vital_persistence.c, the links' bytes of synapse_network.c)
--   Network       network-baremetal/src/respiration.c
--   Identity      identity-baremetal/src/self_recognition.c, include/dna_hash.h
--   Evolution     evolution-baremetal/src/mutation.c, swarm-baremetal/src/collective.c
--   Periphery     Reflex (reflex-baremetal/src/spinal_cord.c, include/nervous_system.h), Sense
--                 (sense-baremetal/src/retina_and_touch.c, include/sensory_receptors.h), Sleep
--                 (dream-baremetal/src/dream_daemon.c), Repair (regen-baremetal/src/hotpatch.c),
--                 Vocal (vocal-baremetal/src/speaker_vocal.c)
--   Pci           drivers/pci.c, network-baremetal/src/nic_pci.c
--   Prelude       numbers, lists, words and bits that these share
--
-- State. A file's static variables are one record (Bus, Organs, Scheduler, Body), which an
-- operation takes and gives back. Unsigned integers are native numbers with their wrap-around
-- written out (u8, u16, u32, u64). A pointer into a pool is an optional index. An array of fixed
-- size is a list of that length, or, for the blood stream and the rings, a function of the index;
-- a pool with a count is the list of the entries in use.
--
-- Loops. `absorb` and the walks along the scheduler's chain can run for ever in the source, so
-- they take fuel and answer `none` without enough. For the bus the capacity plus one is enough
-- where the ring is sized beyond the write position; for the scheduler the number of registered
-- organs is. A word of the metabolic Forth may call itself, so its calls take a depth; where
-- words call only earlier words, one more than their number is enough, and so is 129 always. The
-- other loops are structural. The allocator's operations take the number of cells, which the
-- source fixes at 102400, and hold for any number up to that.
--
-- Outside the model. Printing; null checks on pointers that callers never leave null; the drivers
-- of single devices and the network card, whose frames end in a list; the entry points of the
-- organs, which a pulse names in the order of the calls; the clock, the body temperature and the
-- other organs' answers, which are arguments; what the assembly, the Rust parts and the ports
-- answer in a beat of the life loop, one record for each beat. Memory barriers: the model runs
-- one operation at a time. Uninitialised stack bytes: the padding array of the hash is its
-- meaningful prefix, and a copy of a struct's bytes is the struct. The disk, whose answers are
-- arguments; the UEFI entry; the printed reports; the feigned death and the posture, which are
-- left to the assembly; the display and the host services are not modelled.
pub mod Prelude
pub mod Bus
pub mod Organs
pub mod Homeostasis
pub mod Planes
pub mod Scheduler
pub mod Bot
pub mod Memory
pub mod Vital
pub mod Network
pub mod Identity
pub mod Evolution
pub mod Periphery
pub mod Pci
