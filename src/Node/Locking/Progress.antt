-- ===== src/Node/Locking/Progress.antt =====
-- The goroutines of a node never block each other for ever.
use libp2p_experiment.Base.{
  ℕ, ◌<◌, ◌≡◌, ◌≢◌, ap, refl, Bool, false, [], ◌∷◌, arith, inl, inr, nat_eq, Bool-cases,
  Option-cases, string_eq,
}
use libp2p_experiment.Base.Dict
use libp2p_experiment.Node.{Node}
use libp2p_experiment.Node.Locking.{
  Pc, idle, wanting, waiting, adding, entering, leaving, wants_read, reading, Shared, Move,
  announce, lock, known, unknown, enter, unlock, rlock, visit, runlock, System, Reach,
}
use libp2p_experiment.Node.Locking.Holders.{claims, reads, one-total, total-found}
use libp2p_experiment.Node.Locking.Exclusion.{Reach-Locked}

in_call : (w : Pc → ℕ) (p : Pc) → w idle ≡ 0 → 0 < w p → p ≢ idle
in_call w p none_idle some e = omega (arith, none_idle, some, ap w e)

module _ {Key : Type 0} where
  abbrev pub CanMove : Shared Key → Pc → Type 0
  CanMove m p = (m' : Shared Key) × ((q : Pc) × Move m p m' q)

  -- What a goroutine inside of a call waits for where it stands.
  abbrev Ready : Shared Key → Pc → Type 0
  Ready m (wanting info) = m.writer ≡ false
  Ready m (waiting info) = m.readers ≡ 0
  Ready m (wants_read node_type) = m.writer ≡ false
  Ready m _ = Unit

  Ready-CanMove : (m : Shared Key) (p : Pc) → p ≢ idle → Ready m p → CanMove m p
  Ready-CanMove m idle inside h = absurd (inside refl)
  Ready-CanMove m (wanting info) inside h = (_, (_, announce h))
  Ready-CanMove m (waiting info) inside h = (_, (_, lock h))
  Ready-CanMove m (adding info) inside h =
      elim (Option-cases (Dict.lookup info.id m.node.neighbors)) [
        | inl fresh ↦ (m, (entering info, unknown fresh))
        | inr (old, held) ↦ (m, (leaving info, known held))
      ]
  Ready-CanMove m (entering info) inside h = (_, (_, enter))
  Ready-CanMove m (leaving info) inside h = (_, (_, unlock))
  Ready-CanMove m (wants_read node_type) inside h = (_, (_, rlock h))
  Ready-CanMove m (reading node_type [] nodes) inside h = (_, (_, runlock))
  Ready-CanMove m (reading node_type ((id, info) ∷ rest) nodes) inside h = (_, (_, visit))

  -- Where the mutex is free, where a `Lock` is announced and nobody reads, and for a reader.
  free-Ready : (m : Shared Key) (p : Pc) → m.writer ≡ false → claims p ≡ 0 → Ready m p
  free-Ready m idle free h = tt
  free-Ready m (wanting info) free h = free
  free-Ready m (waiting info) free h = absurd (omega (arith, h))
  free-Ready m (adding info) free h = tt
  free-Ready m (entering info) free h = tt
  free-Ready m (leaving info) free h = tt
  free-Ready m (wants_read node_type) free h = free
  free-Ready m (reading node_type rest nodes) free h = tt

  claims-Ready : (m : Shared Key) (p : Pc) → 0 < claims p → m.readers ≡ 0 → Ready m p
  claims-Ready m idle h none_reads = tt
  claims-Ready m (wanting info) h none_reads = absurd (omega (arith, h))
  claims-Ready m (waiting info) h none_reads = none_reads
  claims-Ready m (adding info) h none_reads = tt
  claims-Ready m (entering info) h none_reads = tt
  claims-Ready m (leaving info) h none_reads = tt
  claims-Ready m (wants_read node_type) h none_reads = absurd (omega (arith, h))
  claims-Ready m (reading node_type rest nodes) h none_reads = tt

  reads-Ready : (m : Shared Key) (p : Pc) → 0 < reads p → Ready m p
  reads-Ready m idle h = tt
  reads-Ready m (wanting info) h = absurd (omega (arith, h))
  reads-Ready m (waiting info) h = absurd (omega (arith, h))
  reads-Ready m (adding info) h = tt
  reads-Ready m (entering info) h = tt
  reads-Ready m (leaving info) h = tt
  reads-Ready m (wants_read node_type) h = absurd (omega (arith, h))
  reads-Ready m (reading node_type rest nodes) h = tt

  -- A goroutine that is inside of a call and can go on.
  abbrev pub Progress : ℕ → System Key → Type 0
  Progress n s = (j : ℕ) × ((j < n) × ((s.pc j ≢ idle) × CanMove s.mem (s.pc j)))

  -- No state of a node is a deadlock, whatever the goroutines did: as long as one of them is inside of
  -- a call of `AddNode` or `FindNodes`, one that is inside of such a call can go on with it, so that
  -- nobody waits for a mutex that is never given back.
  pub no_deadlock :
      {n : ℕ} {departures : Bool} {node : Node Key} {s : System Key}
      → Reach n departures node s
      → (i : ℕ) → i < n
      → s.pc i ≢ idle
      → Progress n s
  no_deadlock {n} {s} r i below busy =
      let l = Reach-Locked r in
      elim (Bool-cases s.mem.writer) [
        | inr free ↦ (
          i,
          (
            below,
            (
              busy,
              Ready-CanMove s.mem (s.pc i) busy (
                  free-Ready s.mem (s.pc i) free
                    (ground (arith, free, l.one_writer, one-total claims n i s.pc below))),
            ),
          ),
        )
        | inl taken ↦ elim (nat_eq.dec s.mem.readers 0) [
          | yes none_reads ↦
              let (j, (under, has)) =
                total-found claims n s.pc (ground (arith, taken, l.one_writer)) in
              let busy_too = in_call claims (s.pc j) refl has in
              let ready = claims-Ready s.mem (s.pc j) has none_reads in
              (j, (under, (busy_too, Ready-CanMove s.mem (s.pc j) busy_too ready)))
          | no some_read ↦
              let (j, (under, has)) =
                total-found reads n s.pc (omega (arith, some_read, l.all_readers)) in
              let busy_too = in_call reads (s.pc j) refl has in
              (
                j,
                (
                  under,
                  (
                    busy_too,
                    Ready-CanMove s.mem (s.pc j) busy_too (reads-Ready s.mem (s.pc j) has),
                  ),
                ),
              )
        ]
      ]
