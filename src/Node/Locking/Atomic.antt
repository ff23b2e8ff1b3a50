-- ===== src/Node/Locking/Atomic.antt =====
-- The calls on a node take effect at once, one after the other, as the mutex makes them.
use mathlib.Core.Path.{subst}
use mathlib.Core.List.{append_assoc}
use libp2p_experiment.Base.{
  ℕ, ◌+◌, ◌⊎◌, inl, inr, ◌≡◌, ◌≢◌, ◌∙◌, refl, Bool, false, none, some, List, [], ◌∷◌, ◌++◌, arith,
  nat_eq, string_eq,
}
use libp2p_experiment.Base.Dict
use libp2p_experiment.Base.Dict.{Dict}
use libp2p_experiment.Node.{Node, NodeInfo, add_node, fitting, find_in, find_nodes}
use libp2p_experiment.Node.Locking.{
  Pc, idle, wanting, waiting, adding, entering, leaving, wants_read, reading, Shared, Move,
  call_add, announce, lock, known, unknown, enter, unlock, call_find, rlock, visit, runlock, System,
  Reach, start, pick, leave,
}
use libp2p_experiment.Node.Locking.Holders.{writes, claims, reads}

module _ {Key : Type 0} where
  -- Calls of `AddNode` that run alone, the last one first.
  abbrev pub add_nodes : List NodeInfo → Node Key → Node Key
  add_nodes [] node = node
  add_nodes (info ∷ infos) node = add_node info (add_nodes infos node)

  -- What the call of `AddNode` that a move ends was for.
  abbrev pub ended : {m m' : Shared Key} {p q : Pc} → Move m p m' q → List NodeInfo
  ended (unlock {info}) = info ∷ []
  ended _ = []

  -- What the calls of `AddNode` were for that came to their `Unlock` in a run, the last one first.
  abbrev pub finished :
      {n : ℕ} {departures : Bool} {node : Node Key} {s : System Key}
      → Reach n departures node s
      → List NodeInfo
  finished start = []
  finished (pick i r below move) = ended move ++ finished r
  finished (leave p r departs) = finished r

  -- What a goroutine may rely on where it stands, when the finished calls made `base`.
  abbrev pub Relies : Node Key → Node Key → Pc → Type 0
  Relies node base (adding info) = node ≡ base
  Relies node base (entering info) = (node ≡ base) × (Dict.lookup info.id node.neighbors ≡ none)
  Relies node base (leaving info) = node ≡ add_node info base
  Relies node base (reading node_type rest nodes) =
      (node ≡ base) × (nodes ++ find_in node_type rest ≡ find_nodes node_type node)
  Relies node base _ = Unit

  pub Relies-free :
      (node base : Node Key) (p : Pc) → ◌≢◌ (writes p + reads p) 1 → Relies node base p
  Relies-free node base idle h = tt
  Relies-free node base (wanting info) h = tt
  Relies-free node base (waiting info) h = tt
  Relies-free node base (adding info) h = absurd (h refl)
  Relies-free node base (entering info) h = absurd (h refl)
  Relies-free node base (leaving info) h = absurd (h refl)
  Relies-free node base (wants_read node_type) h = tt
  Relies-free node base (reading node_type rest nodes) h = absurd (h refl)

  add_node_new :
      (info : NodeInfo) (node base : Node Key)
      → node ≡ base
      → Dict.lookup info.id node.neighbors ≡ none
      → record node { neighbors = Dict.insert info.id info node.neighbors } ≡ add_node info base
  unfolding add_node
  add_node_new info node base same fresh =
      subst
        (λ b. record node { neighbors = Dict.insert info.id info node.neighbors } ≡ add_node info b)
        same (ground (arith, fresh))

  add_node_known :
      (info old : NodeInfo) (node base : Node Key)
      → node ≡ base
      → Dict.lookup info.id node.neighbors ≡ some old
      → node ≡ add_node info base
  unfolding add_node
  add_node_known info old node base same held =
      subst (λ b. node ≡ add_node info b) same (ground (arith, held))

  -- A move of a goroutine that does not write keeps the node and the finished calls.
  abbrev pub Framed : Pc → Node Key → Node Key → List NodeInfo → Type 0
  Framed p node node' ends = (writes p ≡ 1) ⊎ ((writes p ≡ 0) × ((node' ≡ node) × (ends ≡ [])))

  pub Move-Framed :
      (m m' : Shared Key) (p q : Pc) (move : Move m p m' q) → Framed p m.node m'.node (ended move)
  Move-Framed m m' p q (call_add info) = inr (refl, (refl, refl))
  Move-Framed m m' p q (announce free) = inr (refl, (refl, refl))
  Move-Framed m m' p q (lock none_reads) = inr (refl, (refl, refl))
  Move-Framed m m' p q (known held) = inl refl
  Move-Framed m m' p q (unknown fresh) = inl refl
  Move-Framed m m' p q enter = inl refl
  Move-Framed m m' p q unlock = inl refl
  Move-Framed m m' p q (call_find node_type) = inr (refl, (refl, refl))
  Move-Framed m m' p q (rlock free) = inr (refl, (refl, refl))
  Move-Framed m m' p q visit = inr (refl, (refl, refl))
  Move-Framed m m' p q runlock = inr (refl, (refl, refl))

  -- The goroutine that moved; the node is what the finished calls made when it comes to hold the
  -- mutex.
  pub Move-Relies :
      (m m' : Shared Key) (p q : Pc) (infos : List NodeInfo) (first : Node Key)
      → Relies m.node (add_nodes infos first) p
      → (writes p ≡ 0 → claims p ≡ 1 → m.node ≡ add_nodes infos first)
      → (m.writer ≡ false → m.node ≡ add_nodes infos first)
      → (move : Move m p m' q) → Relies m'.node (add_nodes (ended move ++ infos) first) q
  unfolding find_nodes find_in
  Move-Relies m m' p q infos first relies alone unlocked (call_add info) = tt
  Move-Relies m m' p q infos first relies alone unlocked (announce free) = tt
  Move-Relies m m' p q infos first relies alone unlocked (lock none_reads) = alone refl refl
  Move-Relies m m' p q infos first relies alone unlocked (known {info} {old} held) =
      add_node_known info old m.node (add_nodes infos first) relies held
  Move-Relies m m' p q infos first relies alone unlocked (unknown fresh) = (relies, fresh)
  Move-Relies m m' p q infos first relies alone unlocked (enter {info}) =
      add_node_new info m.node (add_nodes infos first) relies.0 relies.1
  Move-Relies m m' p q infos first relies alone unlocked unlock = tt
  Move-Relies m m' p q infos first relies alone unlocked (call_find node_type) = tt
  Move-Relies m m' p q infos first relies alone unlocked (rlock free) = (unlocked free, refl)
  Move-Relies m m' p q infos first relies alone unlocked
        (visit {node_type} {id} {info} {rest} {nodes}) =
      (
        relies.0,
        append_assoc nodes (fitting node_type info.id info.types) (find_in node_type rest)
            ∙ relies.1,
      )
  Move-Relies m m' p q infos first relies alone unlocked runlock = tt

  -- A goroutine that stops writing leaves what the finished calls made.
  pub Move-ends :
      (m m' : Shared Key) (p q : Pc) (infos : List NodeInfo) (first : Node Key)
      → Relies m.node (add_nodes infos first) p
      → writes p ≡ 1
      → writes q ≡ 0
      → (move : Move m p m' q) → m'.node ≡ add_nodes (ended move ++ infos) first
  Move-ends m m' p q infos first relies w v (call_add info) = absurd (omega (arith, w))
  Move-ends m m' p q infos first relies w v (announce free) = absurd (omega (arith, w))
  Move-ends m m' p q infos first relies w v (lock none_reads) = absurd (omega (arith, w))
  Move-ends m m' p q infos first relies w v (known held) = absurd (omega (arith, v))
  Move-ends m m' p q infos first relies w v (unknown fresh) = absurd (omega (arith, v))
  Move-ends m m' p q infos first relies w v enter = absurd (omega (arith, v))
  Move-ends m m' p q infos first relies w v unlock = relies
  Move-ends m m' p q infos first relies w v (call_find node_type) = absurd (omega (arith, w))
  Move-ends m m' p q infos first relies w v (rlock free) = absurd (omega (arith, w))
  Move-ends m m' p q infos first relies w v visit = absurd (omega (arith, w))
  Move-ends m m' p q infos first relies w v runlock = absurd (omega (arith, w))
