-- ===== src/Tests/Goroutines.antt =====
-- Two goroutines on a node with one neighbour.
use libp2p_experiment.Base.{
  ℕ, ◌<◌, ◌≡◌, ◌≢◌, ap, refl, Bool, true, false, List, none, [], ◌∷◌, ◌++◌, arith, nat_eq,
  string_eq,
}
use libp2p_experiment.Base.Dict
use libp2p_experiment.Node.{Node, NodeInfo, PeerId, fitting, find_nodes}
use libp2p_experiment.Node.Locking.{
  Pc, idle, wants_read, reading, call_add, announce, lock, unknown, enter, unlock, call_find, rlock,
  visit, System, moved, Reach, start, pick,
}
use libp2p_experiment.Node.Locking.Exclusion.{mutual_exclusion}
use libp2p_experiment.Node.Locking.Progress.{Progress, no_deadlock}
use libp2p_experiment.Node.Locking.Atomic.{add_nodes, finished}
use libp2p_experiment.Node.Locking.Serial.{calls_are_atomic}
use libp2p_experiment.Node.Locking.Departures.{with_one, Stale, leave-Stale}

abbrev known_peer : NodeInfo
known_peer = record { types = "data" ∷ []; id = "a"; name = "A" }

abbrev lonely : Node ℕ
lonely = record {
  info = record { types = "client" ∷ []; id = "self"; name = "S" };
  neighbors = [];
  job_list = [];
  base_path = [];
  identity = 0;
}

abbrev here : Node ℕ
here = with_one known_peer lonely

-- The second goroutine is about to read, and the first has the mutex for writing.
abbrev writing : System ℕ
writing = record {
  mem = record { node = here; writer = true; readers = 0 };
  pc =
      moved
        (moved (moved (moved (λ _. idle) 1 (wants_read "data")) 0 (Pc.wanting known_peer)) 0
          (Pc.waiting known_peer))
        0 (Pc.adding known_peer);
}

writing_reached : Reach 2 false here writing
unfolding nat_eq
writing_reached =
    let asking : 1 < 2 = omega arith in
    let first : 0 < 2 = omega arith in
    let called = pick 0 (pick 1 start asking (call_find "data")) first (call_add known_peer) in
    pick 0 (pick 0 called first (announce refl)) first (lock refl)

mutual_exclusion_example : ◌≡◌ {A = ℕ} 0 0
unfolding nat_eq
mutual_exclusion_example =
    mutual_exclusion writing_reached 0 0 (omega arith) (omega arith) refl refl

abbrev holding : Pc → Bool
holding idle = false
holding _ = true

busy : ◌≢◌ (writing.pc 1) idle
unfolding nat_eq
busy e = let f : true ≡ false = ap holding e in cc

no_deadlock_example : Progress 2 writing
no_deadlock_example = no_deadlock writing_reached 1 (omega arith) busy

-- The second goroutine enters a node, while the first waits, and both are found after that.
abbrev joining : NodeInfo
joining = record { types = "data" ∷ []; id = "b"; name = "B" }

not_known : Dict.lookup "b" here.neighbors ≡ none
unfolding Dict.lookup string_eq
not_known = refl

abbrev with_both : Node ℕ
with_both = record here { neighbors = Dict.insert "b" joining here.neighbors }

both_there : with_both.neighbors ≡ ("a", known_peer) ∷ ("b", joining) ∷ []
unfolding Dict.insert string_eq
both_there = refl

abbrev found_both : List PeerId
found_both = fitting "data" "a" ("data" ∷ []) ++ fitting "data" "b" ("data" ∷ [])

abbrev both_found : System ℕ
both_found = record {
  mem = record { node = with_both; writer = false; readers = 1 };
  pc =
      moved
        (moved
          (moved
            (moved
              (moved
                (moved
                  (moved
                    (moved (moved (moved (λ _. idle) 1 (Pc.wanting joining)) 1 (Pc.waiting joining))
                      1 (Pc.adding joining))
                    1 (Pc.entering joining))
                  1 (Pc.leaving joining))
                0 (wants_read "data"))
              1 idle)
            0 (reading "data" with_both.neighbors []))
          0 (reading "data" (("b", joining) ∷ []) (fitting "data" "a" ("data" ∷ []))))
        0 (reading "data" [] found_both);
}

both_reached : Reach 2 false here both_found
unfolding nat_eq string_eq Dict.insert Dict.lookup
both_reached =
    let first : 0 < 2 = omega arith in
    let second : 1 < 2 = omega arith in
    let waits = pick 1 (pick 1 start second (call_add joining)) second (announce refl) in
    let looked_up = pick 1 (pick 1 waits second (lock refl)) second (unknown refl) in
    let asked = pick 0 (pick 1 looked_up second enter) first (call_find "data") in
    let reads_now = pick 0 (pick 1 asked second unlock) first (rlock refl) in
    pick 0 (pick 0 reads_now first visit) first visit

calls_are_atomic_example :
    (both_found.mem.node ≡ add_nodes (finished both_reached) here)
    × (found_both ≡ find_nodes "data" both_found.mem.node)
unfolding nat_eq
calls_are_atomic_example = calls_are_atomic both_reached 0 "data" found_both refl

-- The one call of `AddNode` that came to its end.
finished_one : finished both_reached ≡ joining ∷ []
unfolding both_reached
finished_one = refl

found_one : fitting "data" "a" ("data" ∷ []) ≢ []
unfolding fitting string_eq
found_one e = cc

leave-Stale_example :
    (s : System ℕ) × (Stale known_peer "data" lonely s
      × (fitting "data" "a" ("data" ∷ []) ≢ find_nodes "data" s.mem.node))
leave-Stale_example = leave-Stale known_peer "data" lonely found_one
