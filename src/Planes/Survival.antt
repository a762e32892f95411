-- ===== src/Planes/Survival.antt =====
-- The control tick as a whole: what is decided, and that survival comes first.
use operating_organism.Prelude.{
  ltb, leb, if◌then◌else◌, not, length, get_or, drop, u32, drop_nil, drop_cons, ℕ, zero, suc, ◌+◌,
  ◌^◌, ◌<◌, ◌≡◌, refl, ap, ◌≢◌, Bool, ◌&&◌, ◌||◌, List, ◌∷◌, arith,
}
use operating_organism.Planes.{
  Decision, hold, throttle, isolate, recover, optimize, reflex_engine_run, strategic_brain_run,
  scan_worst, organ_autonomy_run,
}
use operating_organism.Planes.Tick.{Body, resolve, exhale, control_tick}
use operating_organism.Planes.Telemetry.{Packet, wire_size, fill, serialize}
use operating_organism.Planes.Frame.{parse, parse-serialize, fill-InRange, exhale-cons, fill_lem}
use operating_organism.Homeostasis.{
  Mode, normal, recovery, mode_code, degraded_below, safe_below, same_mode, next_mode,
}
use operating_organism.Homeostasis.Modes.{reading, living, ready_twice, evaluate_lem}
use operating_organism.Organs.{
  organ_count, Snapshot, blank, Organs, ready, aggregate_of, aggregate_health, is_vital, worst_from,
  worst_nonvital_of, vital_chain_alive,
}
use operating_organism.Organs.Health.{IsValid}
use operating_organism.Organs.Publish.{ready-IsValid}

-- The entries of the registry from index `i` on, given one by one.
scan-worst :
    (o : Organs) (n i : ℕ) (worst : ℕ)
    → i + n ≡ organ_count
    → length o.registry ≡ organ_count
    → scan_worst n i o worst ≡ worst_from i (drop i o.registry) worst
unfolding scan_worst worst_from
scan-worst o zero i worst e l = rw (drop_nil i o.registry (omega arith)) refl
scan-worst o (suc n) i worst e l =
    let s : Snapshot = get_or o.registry i blank in
    let w : ℕ =
      if is_vital i then worst else (if s.present && ltb s.health worst then s.health else worst) in
    let rest : drop (suc i) o.registry ≡ drop (i + 1) o.registry =
      ap (λ k. drop k o.registry) {x = suc i} {y = i + 1} (omega arith) in
    rw (drop_cons i o.registry blank (omega arith), rest)
      (ground (arith, scan-worst o n (i + 1) w (omega arith) l))

-- The autonomy plane's own scan finds the registry's worst non-vital health.
autonomy_worst :
    (o : Organs) → IsValid o → scan_worst organ_count 0 o 100 ≡ worst_nonvital_of o.registry
unfolding worst_nonvital_of
autonomy_worst o v = scan-worst o organ_count 0 100 refl v.size

-- The decision of a tick on an organism in mode `m'` after the evaluation, with average health `agg`
-- and worst non-vital health `worst`.
abbrev pub verdict : Mode → ℕ → ℕ → Bool → Decision
verdict m' agg worst alive =
    if not alive || (ltb agg safe_below || (leb safe_below worst && ltb worst degraded_below))
    then throttle
    else (if ltb agg degraded_below
        then isolate
        else (if ltb worst safe_below || same_mode m' recovery then recover else hold))

planes_verdict :
    (o : Organs) (m : Mode) (agg : ℕ)
    → let (_, reflex_decision, _) = reflex_engine_run o agg in
      resolve (resolve reflex_decision (organ_autonomy_run o).0) (strategic_brain_run m agg).0
      ≡ verdict m agg (scan_worst organ_count 0 o 100) (living o)
unfolding resolve reflex_engine_run strategic_brain_run organ_autonomy_run vital_chain_alive
planes_verdict o normal agg = ground arith
planes_verdict o recovery agg = ground arith
planes_verdict o _ agg = ground arith

organs-reflex : (o : Organs) (agg : ℕ) → (reflex_engine_run o agg).0 ≡ ready o
unfolding reflex_engine_run vital_chain_alive
organs-reflex o agg = refl

module _ (s : Body) where
  abbrev pub average : ℕ
  average = aggregate_of (ready s.organs).registry

  abbrev pub worst : ℕ
  worst = worst_nonvital_of (ready s.organs).registry

  abbrev pub mode_after : Mode
  mode_after = next_mode s.mode (reading s.organs) (living s.organs)

-- A tick decides by survival first: THROTTLE if the vital chain is broken, the average health is
-- below 40, or the worst non-vital organ is at 40 to 74; else ISOLATE if the average is below 75;
-- else RECOVER if the worst organ is below 40 or the mode is RECOVERY; else HOLD. The mode is that
-- of the evaluation, and the tick count goes up by one.
pub tick_verdict :
    (s : Body)
    → IsValid s.organs
    → ((control_tick s).1 ≡ verdict (mode_after s) (average s) (worst s) (living s.organs))
      × ((control_tick s).0.mode ≡ mode_after s)
      × ((control_tick s).0.ticks ≡ u32 (s.ticks + 1))
unfolding control_tick aggregate_health
tick_verdict s v =
    let o = ready s.organs in
    rw (evaluate_lem s.organs s.bus s.mode, ready_twice s.organs)
      (
        ground (
          arith,
          organs-reflex o (average s),
          ready_twice s.organs,
          planes_verdict o (mode_after s) (average s),
          autonomy_worst o (ready-IsValid v),
        ),
        refl,
        refl,
      )

-- OPTIMIZE is never the resolved decision, whatever the strategic plane proposes: the reflex plane
-- always decides something, and its HOLD ranks above it.
tick-ne-optimize : (s : Body) → IsValid s.organs → (control_tick s).1 ≢ optimize
tick-ne-optimize s v = ground (arith, tick_verdict s v)

-- The frame that a filled packet becomes.
sent_frame :
    (o : Organs) (m : Mode) (breath tick : ℕ) (out : List (List ℕ))
    → IsValid o
    → breath < 2 ^ 32
    → tick < 2 ^ 32
    → let frame = serialize (fill o m breath tick).1 wire_size in
      (exhale out frame ≡ frame ∷ out)
      × (length frame ≡ wire_size)
      × ((parse frame).mode ≡ mode_code m)
      × ((parse frame).health ≡ aggregate_of (ready o).registry)
      × ((parse frame).tick ≡ tick)
sent_frame o m breath tick out v hb ht =
    let p : Packet = (fill o m breath tick).1 in
    let (back, size, _) =
      parse-serialize p wire_size (fill-InRange o m breath tick v hb ht).0 (omega arith) in
    let (_, mode, health, count) = fill_lem o m breath tick in
    (
      exhale-cons out (serialize p wire_size) size,
      size,
      rw back mode,
      rw back health,
      rw back count,
    )

-- A tick keeps the registry valid, and hands the network exactly one frame more, from which a
-- receiver reads the mode after the tick, the average health and the number of the tick.
tick_frame :
    (s : Body)
    → IsValid s.organs
    → s.breath_rate < 2 ^ 32
    → let s' = (control_tick s).0 in
      (frame : List ℕ) × (s'.exhaled ≡ frame ∷ s.exhaled)
      × (length frame ≡ wire_size)
      × ((parse frame).mode ≡ mode_code s'.mode)
      × ((parse frame).health ≡ average s)
      × ((parse frame).tick ≡ u32 (s.ticks + 1))
      × IsValid s'.organs
unfolding control_tick aggregate_health
tick_frame s v hb =
    let o = ready s.organs in
    let m = mode_after s in
    let ticks = u32 (s.ticks + 1) in
    let w : IsValid o = ready-IsValid v in
    let (sent, size, mode, health, count) =
      sent_frame o m s.breath_rate ticks s.exhaled w hb (omega arith) in
    let (same, _, _, _) = fill_lem o m s.breath_rate ticks in
    rw
      (
        evaluate_lem s.organs s.bus s.mode,
        ready_twice s.organs,
        organs-reflex,
        ready_twice s.organs,
      )
      (
        serialize (fill o m s.breath_rate ticks).1 wire_size,
        sent,
        size,
        mode,
        rw (ready_twice s.organs) at health,
        count,
        rw (same, ready_twice s.organs) w,
      )
