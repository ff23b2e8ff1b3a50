-- ===== src/Node/Locking/Exclusion.antt =====
-- The mutex of a node: who can hold it together.
use libp2p_experiment.Base.{ℕ, ◌+◌, ◌<◌, ◌≤◌, ◌≡◌, refl, Bool, arith, nat_eq, if◌then◌else◌}
use libp2p_experiment.Node.{Node}
use libp2p_experiment.Node.Locking.{
  Pc, Shared, Move, call_add, announce, lock, known, unknown, enter, unlock, call_find, rlock,
  visit, runlock, System, moved, Reach, start, pick, leave,
}
use libp2p_experiment.Node.Locking.Holders.{
  writes, claims, reads, writes-claims, total, total_mono, total-idle, total-moved, one-total,
  two-total,
}

abbrev pub bit : Bool → ℕ
bit b = if b then 1 else 0

-- The mutex counts the goroutines that have it or are announced, and has no reader beside a goroutine
-- that writes.
pub record Locked {Key : Type 0} (n : ℕ) (m : Shared Key) (pc : ℕ → Pc) : Type 0 where
  pub one_writer : total claims n pc ≡ bit m.writer
  pub all_readers : total reads n pc ≡ m.readers
  pub apart : 0 < total writes n pc → m.readers ≡ 0

-- What a move does to the mutex, beside where the goroutine stands; `w` and `w'` count the goroutines
-- that write before and after it.
record Balanced {Key : Type 0} (m : Shared Key) (p : Pc) (m' : Shared Key) (q : Pc) : Type 0 where
  for_writing : bit m.writer + claims q ≡ bit m'.writer + claims p
  for_reading : m.readers + reads q ≡ m'.readers + reads p
  apart :
      (w w' : ℕ)
      → w' + writes p ≡ w + writes q
      → w ≤ bit m.writer
      → (0 < w → m.readers ≡ 0)
      → 0 < w'
      → m'.readers ≡ 0

module _ {Key : Type 0} where
  Move-Balanced :
      (m m' : Shared Key) (p q : Pc)
      → claims p ≤ bit m.writer
      → reads p ≤ m.readers
      → Move m p m' q
      → Balanced m p m' q
  Move-Balanced m m' p q hw hr (call_add info) = record {
    for_writing = refl;
    for_reading = refl;
    apart = λ w w' e l h some. h (omega (arith, e, some));
  }
  Move-Balanced m m' p q hw hr (announce free) = record {
    for_writing = ground (arith, free);
    for_reading = refl;
    apart = λ w w' e l h some. h (omega (arith, e, some));
  }
  Move-Balanced m m' p q hw hr (lock none_reads) = record {
    for_writing = refl;
    for_reading = refl;
    apart = λ w w' e l h some. none_reads;
  }
  Move-Balanced m m' p q hw hr (known held) = record {
    for_writing = refl;
    for_reading = refl;
    apart = λ w w' e l h some. h (omega (arith, e, some));
  }
  Move-Balanced m m' p q hw hr (unknown fresh) = record {
    for_writing = refl;
    for_reading = refl;
    apart = λ w w' e l h some. h (omega (arith, e, some));
  }
  Move-Balanced m m' p q hw hr enter = record {
    for_writing = refl;
    for_reading = refl;
    apart = λ w w' e l h some. h (omega (arith, e, some));
  }
  Move-Balanced m m' p q hw hr unlock = record {
    for_writing = ground arith;
    for_reading = refl;
    apart = λ w w' e l h some. h (omega (arith, e, some));
  }
  Move-Balanced m m' p q hw hr (call_find node_type) = record {
    for_writing = refl;
    for_reading = refl;
    apart = λ w w' e l h some. h (omega (arith, e, some));
  }
  Move-Balanced m m' p q hw hr (rlock free) = record {
    for_writing = refl;
    for_reading = omega arith;
    apart = λ w w' e l h some. ground (arith, e, l, free, some);
  }
  Move-Balanced m m' p q hw hr visit = record {
    for_writing = refl;
    for_reading = refl;
    apart = λ w w' e l h some. h (omega (arith, e, some));
  }
  Move-Balanced m m' p q hw hr runlock = record {
    for_writing = refl;
    for_reading = omega arith;
    apart = λ w w' e l h some. ground (arith, h, e, some);
  }

  Move-Locked :
      (n i : ℕ) (m m' : Shared Key) (pc : ℕ → Pc) (q : Pc)
      → i < n
      → Move m (pc i) m' q
      → Locked n m pc
      → Locked n m' (moved pc i q)
  Move-Locked n i m m' pc q below move l =
      let b =
        Move-Balanced m m' (pc i) q (omega (arith, l.one_writer, one-total claims n i pc below))
          (omega (arith, l.all_readers, one-total reads n i pc below)) move in
      record {
        one_writer = omega (arith, b.for_writing, l.one_writer, total-moved claims n i pc q below);
        all_readers = omega (arith, b.for_reading, l.all_readers, total-moved reads n i pc q below);
        apart =
            b.apart (total writes n pc) (total writes n (moved pc i q))
              (total-moved writes n i pc q below)
              (omega (arith, l.one_writer, total_mono writes claims n pc writes-claims)) l.apart;
      }

  pub Reach-Locked :
      {n : ℕ} {departures : Bool} {node : Node Key} {s : System Key}
      → Reach n departures node s
      → Locked n s.mem s.pc
  Reach-Locked {n} start = record {
    one_writer = total-idle claims n refl;
    all_readers = total-idle reads n refl;
    apart = λ e. refl;
  }
  Reach-Locked {n} (pick {s} i {m} {p} r below move) =
      Move-Locked n i s.mem m s.pc p below move (Reach-Locked r)
  Reach-Locked (leave p r departs) =
      let l = Reach-Locked r in
      record { one_writer = l.one_writer; all_readers = l.all_readers; apart = l.apart }

  -- Two goroutines are never in calls of `AddNode` and of `AddNode` or `FindNodes` on one node at the
  -- same time: where one has the mutex for writing, in any reachable state, no other has it.
  pub mutual_exclusion :
      {n : ℕ} {departures : Bool} {node : Node Key} {s : System Key}
      → Reach n departures node s
      → (i j : ℕ) → i < n
      → j < n
      → writes (s.pc i) ≡ 1
      → writes (s.pc j) + reads (s.pc j) ≡ 1
      → i ≡ j
  mutual_exclusion {n} {s} r i j below_i below_j writing holding = elim (nat_eq.dec i j) [
    | yes e ↦ e
    | no other ↦
        let l = Reach-Locked r in
        let none_reads = l.apart (omega (arith, writing, one-total writes n i s.pc below_i)) in
        absurd (
          ground (
            arith,
            l.one_writer,
            l.all_readers,
            none_reads,
            total_mono writes claims n s.pc writes-claims,
            two-total writes n i j s.pc refl below_i below_j other,
            one-total reads n j s.pc below_j,
            writing,
            holding,
          ))
  ]
