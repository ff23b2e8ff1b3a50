-- ===== src/Node/Lookup.antt =====
-- The table of neighbours is sound under every event, and `find_nodes` answers from it.
use libp2p_experiment.Base.{
  ◌≡◌, refl, ◌≢◌, String, Bool, false, Option, none, some, List, [], ◌∷◌, ◌++◌, arith, ◌==◌,
  contains, string_eq, ◌||◌, ◌&&◌, Option-cases, inl, inr,
}
use libp2p_experiment.Base.Dict
use libp2p_experiment.Base.Dict.{Dict, NodupKeys}
use libp2p_experiment.Os.{Bytes}
use libp2p_experiment.Node.{Node, NodeInfo, PeerId, add_node, fitting, find_in, find_nodes}
use libp2p_experiment.Node.Events.{
  Event, peer_join, peer_leave, peer_event_failed, message, message_failed, receive, step,
}

-- Every entry is filed under its own id.
abbrev pub Filed : Dict PeerId NodeInfo → Type 0
Filed [] = Unit {0}
Filed ((k, node) ∷ d) = (node.id ≡ k) × Filed d

pub record IsValid {Key : Type 0} (n : Node Key) : Type 0 where
  pub filed : Filed n.neighbors
  pub nodup : NodupKeys n.neighbors
  pub not_self : Dict.lookup n.info.id n.neighbors ≡ none

insert-Filed :
    (node : NodeInfo) (d : Dict PeerId NodeInfo) → Filed d → Filed (Dict.insert node.id node d)
unfolding Dict.insert
insert-Filed node [] f = (refl, tt)
insert-Filed node ((k, m) ∷ d) f = ground (arith, insert-Filed node d f.1)

erase-Filed : (p : PeerId) (d : Dict PeerId NodeInfo) → Filed d → Filed (Dict.erase p d)
unfolding Dict.erase
erase-Filed p [] f = tt
erase-Filed p ((k, m) ∷ d) f = ground (arith, erase-Filed p d f.1)

module _ {Key : Type 0} where
  add_node-IsValid :
      (node : NodeInfo) (n : Node Key) → node.id ≢ n.info.id → IsValid n → IsValid (add_node node n)
  unfolding add_node
  add_node-IsValid node n other v = ground (
    arith,
    insert-Filed node n.neighbors v.filed,
    Dict.insert-NodupKeys node.id node n.neighbors v.nodup,
    Dict.lookup-insert n.info.id node.id node n.neighbors,
  )

module _ {Key : Type 0} (unmarshal : Bytes → Option NodeInfo) where
  receive-IsValid : (bytes : Bytes) (n : Node Key) → IsValid n → IsValid (receive unmarshal bytes n)
  unfolding receive
  receive-IsValid bytes n v = elim (Option-cases (unmarshal bytes)) [
    | inl e ↦ rw (e, receive) v
    | inr (node, e) ↦ rw (e, receive) (ground (arith, add_node-IsValid node n))
  ]

  -- Every event keeps the table sound.
  pub step-IsValid : (e : Event) (n : Node Key) → IsValid n → IsValid (step unmarshal e n)
  unfolding step
  step-IsValid (peer_leave p) n v = ground (
    arith,
    erase-Filed p n.neighbors v.filed,
    Dict.erase-NodupKeys p n.neighbors v.nodup,
    Dict.lookup-erase n.info.id p n.neighbors,
  )
  step-IsValid (message bytes) n v = receive-IsValid bytes n v
  step-IsValid (peer_join p) n v = v
  step-IsValid peer_event_failed n v = v
  step-IsValid message_failed n v = v

contains-append :
    (xs ys : List String) (a : String) → contains (xs ++ ys) a ≡ (contains xs a || contains ys a)
contains-append [] ys a = refl
contains-append (x ∷ xs) ys a = ground (arith, contains-append xs ys a)

contains-fitting :
    (t : String) (id : PeerId) (types : List String) (p : PeerId)
    → contains (fitting t id types) p ≡ (p == id && contains types t)
unfolding fitting
contains-fitting t id [] p = ground arith
contains-fitting t id (u ∷ types) p = ground (arith, contains-fitting t id types p)

abbrev pub offers_type : String → Option NodeInfo → Bool
offers_type t none = false
offers_type t (some node) = contains node.types t

contains-find_in_absent :
    (t : String) (d : Dict PeerId NodeInfo) (p : PeerId)
    → Filed d
    → Dict.lookup p d ≡ none
    → contains (find_in t d) p ≡ false
unfolding find_in Dict.lookup
contains-find_in_absent t [] p f h = refl
contains-find_in_absent t ((k, node) ∷ d) p f h =
    rw (contains-append, contains-fitting) (ground (arith, contains-find_in_absent t d p f.1))

contains-find_in :
    (t : String) (d : Dict PeerId NodeInfo) (p : PeerId)
    → Filed d
    → NodupKeys d
    → contains (find_in t d) p ≡ offers_type t (Dict.lookup p d)
unfolding find_in Dict.lookup
contains-find_in t [] p f u = refl
contains-find_in t ((k, node) ∷ d) p f u =
    rw (contains-append, contains-fitting)
      (ground (arith, contains-find_in t d p f.1 u.1, contains-find_in_absent t d p f.1))

-- `FindNodes` lists exactly the neighbours that offer the type: each answer is filed in the table,
-- under its own id, with a description that names the type, and every such neighbour is listed.
pub contains-find_nodes :
    {Key : Type 0} (n : Node Key) (t : String) (p : PeerId)
    → IsValid n
    → contains (find_nodes t n) p ≡ offers_type t (Dict.lookup p n.neighbors)
unfolding find_nodes
contains-find_nodes n t p v = contains-find_in t n.neighbors p v.filed v.nodup

-- A node is never an answer to its own question.
pub find_nodes-not_self :
    {Key : Type 0} (n : Node Key) (t : String)
    → IsValid n
    → contains (find_nodes t n) n.info.id ≡ false
find_nodes-not_self n t v = rw (contains-find_nodes n t n.info.id v, v.not_self) refl
