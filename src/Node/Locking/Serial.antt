-- ===== src/Node/Locking/Serial.antt =====
-- Calls on a node that overlap have the effect of calls one after the other.
use mathlib.Core.Path.{sym, subst}
use mathlib.Core.List.{append-nil}
use libp2p_experiment.Base.{
  ℕ, ◌+◌, ◌<◌, ◌≤◌, inl, inr, ◌≡◌, ◌≢◌, ◌∙◌, ap, refl, String, Bool, false, List, [], ◌++◌, arith,
  nat_eq,
}
use libp2p_experiment.Node.{Node, NodeInfo, PeerId, find_in, find_nodes}
use libp2p_experiment.Node.Locking.{
  Pc, idle, reading, Shared, Move, System, moved, Reach, start, pick, leave,
}
use libp2p_experiment.Node.Locking.Holders.{
  writes, claims, reads, writes-claims, total, total_mono, total-moved, one-total, moved_self,
  moved_other,
}
use libp2p_experiment.Node.Locking.Exclusion.{bit, Reach-Locked, mutual_exclusion}
use libp2p_experiment.Node.Locking.Atomic.{
  add_nodes, ended, finished, Relies, Relies-free, Framed, Move-Framed, Move-Relies, Move-ends,
}

below_n :
    (n : ℕ) (pc : ℕ → Pc) (j : ℕ) → (n ≤ j → pc j ≡ idle) → writes (pc j) + reads (pc j) ≡ 1 → j < n
below_n n pc j rest holds = ground (arith, rest, holds)

-- Behind an announced `Lock` nobody writes.
none_write :
    (n i : ℕ) (pc : ℕ → Pc) (b : Bool)
    → i < n
    → total claims n pc ≡ bit b
    → writes (pc i) ≡ 0
    → claims (pc i) ≡ 1
    → total writes n pc ≡ 0
none_write n i pc b below all w c =
    let most : bit b ≤ 1 = ground arith in
    omega (
      arith,
      most,
      all,
      w,
      c,
      total-moved claims n i pc idle below,
      total-moved writes n i pc idle below,
      total_mono writes claims n (moved pc i idle) writes-claims,
    )

module _ {Key : Type 0} where
  -- The finished calls made `base`.
  record Serial (n : ℕ) (base : Node Key) (s : System Key) : Type 0 where
    relies : (i : ℕ) → Relies s.mem.node base (s.pc i)
    resting : (i : ℕ) → n ≤ i → s.pc i ≡ idle
    quiet : total writes n s.pc ≡ 0 → s.mem.node ≡ base

  -- The goroutines other than the one that moved.
  others_rely :
      (n i j : ℕ) (node' : Node Key) (s : System Key) (first : Node Key)
      (infos ends : List NodeInfo)
      → Reach n false first s
      → Relies s.mem.node (add_nodes infos first) (s.pc j)
      → (n ≤ j → s.pc j ≡ idle)
      → i < n
      → ◌≢◌ j i
      → Framed (s.pc i) s.mem.node node' ends
      → Relies node' (add_nodes (ends ++ infos) first) (s.pc j)
  others_rely n i j node' s first infos ends r rely rest below other (inr (_, (same, none_end))) =
      subst (λ k. Relies k (add_nodes (ends ++ infos) first) (s.pc j)) (sym same)
        (subst (λ es. Relies s.mem.node (add_nodes (es ++ infos) first) (s.pc j)) (sym none_end)
          rely)
  others_rely n i j node' s first infos ends r rely rest below other (inl writing) =
      elim (nat_eq.dec (writes (s.pc j) + reads (s.pc j)) 1) [
        | no free ↦ Relies-free node' (add_nodes (ends ++ infos) first) (s.pc j) free
        | yes holds ↦
            absurd (
              other
                (sym (mutual_exclusion r i j below (below_n n s.pc j rest holds) writing holds)))
      ]

  pick-Serial :
      (n i : ℕ) (s : System Key) (m : Shared Key) (p : Pc) (first : Node Key)
      (r : Reach n false first s) (below : i < n) (move : Move s.mem (s.pc i) m p)
      → Serial n (add_nodes (finished r) first) s
      → Serial n
          (add_nodes (ended move ++ finished r) first)
          (record { mem = m; pc = moved s.pc i p })
  pick-Serial n i s m p first r below move before =
      let l = Reach-Locked r in
      let framed = Move-Framed s.mem m (s.pc i) p move in
      let counted = total-moved writes n i s.pc p below in
      let fewer = total_mono writes claims n s.pc writes-claims in
      let relies_now =
        Move-Relies s.mem m (s.pc i) p (finished r) first (before.relies i)
          (λ w c. before.quiet (none_write n i s.pc s.mem.writer below l.one_writer w c))
          (λ free. before.quiet (ground (arith, free, l.one_writer, fewer))) move in
      record {
        relies = λ j. elim (nat_eq.dec j i) [
          | yes e ↦
              subst (Relies m.node (add_nodes (ended move ++ finished r) first))
                (sym (moved_self s.pc i j p e)) relies_now
          | no other ↦
              subst (Relies m.node (add_nodes (ended move ++ finished r) first))
                (sym (moved_other s.pc i j p other))
                (others_rely n i j m.node s first (finished r) (ended move) r (before.relies j)
                  (before.resting j) below other framed)
        ];
        resting = λ j h. ground (arith, before.resting j h);
        quiet = λ none_now. elim framed [
          | inl writing ↦
              let stopped : writes p ≡ 0 =
                ground (arith, none_now, one-total writes n i (moved s.pc i p) below) in
              Move-ends s.mem m (s.pc i) p (finished r) first (before.relies i) writing stopped move
          | inr (still, (same, none_end)) ↦
              same
              ∙ before.quiet (
                  ground
                    (arith, none_now, counted, still, one-total writes n i (moved s.pc i p) below))
              ∙ ap (λ es. add_nodes (es ++ finished r) first) (sym none_end)
        ];
      }

  Reach-Serial :
      {n : ℕ} {first : Node Key} {s : System Key} (r : Reach n false first s)
      → Serial n (add_nodes (finished r) first) s
  Reach-Serial start = record { relies = λ i. tt; resting = λ i h. refl; quiet = λ h. refl }
  Reach-Serial {n} {first} (pick {s} i {m} {p} r below move) =
      pick-Serial n i s m p first r below move (Reach-Serial r)
  Reach-Serial (leave p r departs) = cc

  -- While no peer leaves, calls of `AddNode` and `FindNodes` that overlap in any way have the effect
  -- of calls one after the other: when a call of `FindNodes` has met all entries, the node is what
  -- the calls of `AddNode` that came to their `Unlock`, each once and in the order of these, make of
  -- the first node when each runs alone, and the call is about to return what a call that runs alone
  -- would return now.
  pub calls_are_atomic :
      {n : ℕ} {node : Node Key} {s : System Key} (r : Reach n false node s) (i : ℕ)
      (node_type : String) (nodes : List PeerId)
      → s.pc i ≡ reading node_type [] nodes
      → (s.mem.node ≡ add_nodes (finished r) node) × (nodes ≡ find_nodes node_type s.mem.node)
  unfolding find_in
  calls_are_atomic {node = node} {s = s} r i node_type nodes e =
      let (same, found) =
        subst (Relies s.mem.node (add_nodes (finished r) node)) e ((Reach-Serial r).relies i) in
      (same, sym (append-nil nodes) ∙ found)
