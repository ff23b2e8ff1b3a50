-- ===== src/Node/Order.antt =====
-- What the answers of `FindNodes` do not depend on: the order in which `range` meets the table, and
-- the order in which the goroutines of `Start` take events about different peers.
use mathlib.Core.List.{foldl}
use mathlib.Core.Quot
use libp2p_experiment.Base.{
  ℕ, ◌≡◌, refl, ◌∙◌, sym, ap, String, Bool, false, Option, none, some, List, [], ◌∷◌, arith,
  if◌then◌else◌, ◌==◌, string_eq, select, Bool-cases, inl, inr, count, count-append, Bag,
}
use libp2p_experiment.Base.Dict
use libp2p_experiment.Base.Dict.{Dict, NodupKeys}
use libp2p_experiment.Os.{Bytes}
use libp2p_experiment.Node.{Node, NodeInfo, PeerId, fitting, find_in, find_nodes}
use libp2p_experiment.Node.Events.{
  Event, peer_join, peer_leave, peer_event_failed, message, message_failed, run,
}
use libp2p_experiment.Node.Lookup.{IsValid, Filed}
use libp2p_experiment.Node.History.{observe, run-IsValid, lookup-run}

-- How often a description names a type.
abbrev offered : String → Option NodeInfo → ℕ
offered t none = 0
offered t (some node) = count t node.types

count-fitting :
    (t : String) (id : PeerId) (types : List String) (p : PeerId)
    → count p (fitting t id types) ≡ (if p == id then count t types else 0)
unfolding fitting
count-fitting t id [] p = ground arith
count-fitting t id (u ∷ types) p = ground (arith, count-fitting t id types p)

count-find_in_absent :
    (t : String) (d : Dict PeerId NodeInfo) (p : PeerId)
    → Filed d
    → Dict.lookup p d ≡ none
    → count p (find_in t d) ≡ 0
unfolding find_in Dict.lookup
count-find_in_absent t [] p f h = refl
count-find_in_absent t ((k, node) ∷ d) p f h =
    rw (count-append, count-fitting) (ground (arith, count-find_in_absent t d p f.1))

count-find_in :
    (t : String) (d : Dict PeerId NodeInfo) (p : PeerId)
    → Filed d
    → NodupKeys d
    → count p (find_in t d) ≡ offered t (Dict.lookup p d)
unfolding find_in Dict.lookup
count-find_in t [] p f u = refl
count-find_in t ((k, node) ∷ d) p f u =
    rw (count-append, count-fitting)
      (ground (arith, count-find_in t d p f.1 u.1, count-find_in_absent t d p f.1))

module _ {Key : Type 0} where
  count-find_nodes :
      (n : Node Key) (t : String) (p : PeerId)
      → IsValid n
      → count p (find_nodes t n) ≡ offered t (Dict.lookup p n.neighbors)
  unfolding find_nodes
  count-find_nodes n t p v = count-find_in t n.neighbors p v.filed v.nodup

  -- The answer with its order forgotten.
  abbrev pub answer : String → Node Key → Bag PeerId
  answer t n = Quot.mk (find_nodes t n)

  -- Two nodes whose sound tables hold the same of every peer, in whatever order `range` meets the
  -- entries, give the same answers up to their order.
  pub answer-same_table :
      (n m : Node Key) (t : String)
      → IsValid n
      → IsValid m
      → ((p : PeerId) → Dict.lookup p n.neighbors ≡ Dict.lookup p m.neighbors)
      → answer t n ≡ answer t m
  answer-same_table n m t v w same =
      Quot.sound
        (λ p. count-find_nodes n t p v ∙ ap (offered t) (same p) ∙ sym (count-find_nodes m t p w))

module _ (unmarshal : Bytes → Option NodeInfo) where
  abbrev from : PeerId → Option NodeInfo → Bool
  from p none = false
  from p (some node) = node.id == p

  -- The events that are about a peer: that it leaves, or a description of it.
  abbrev pub is_about : PeerId → Event → Bool
  is_about p (peer_join q) = false
  is_about p (peer_leave q) = p == q
  is_about p peer_event_failed = false
  is_about p (message bytes) = from p (unmarshal bytes)
  is_about p message_failed = false

  observe-other :
      (self p : PeerId) (known : Option NodeInfo) (e : Event)
      → is_about p e ≡ false
      → observe unmarshal self p known e ≡ known
  observe-other self p known (peer_join q) h = refl
  observe-other self p known (peer_leave q) h = ground arith
  observe-other self p known peer_event_failed h = refl
  observe-other self p known (message bytes) h = ground arith
  observe-other self p known message_failed h = refl

  observe-about :
      (self p : PeerId) (es : List Event) (known : Option NodeInfo)
      → foldl (observe unmarshal self p) known es
        ≡ foldl (observe unmarshal self p) known (select (is_about p) es)
  observe-about self p [] known = refl
  observe-about self p (e ∷ es) known = elim (Bool-cases (is_about p e)) [
    | inl h ↦ rw h (observe-about self p es _)
    | inr h ↦ rw (h, observe-other self p known e h) (observe-about self p es known)
  ]

  -- The two receiving goroutines may be scheduled in any way: two histories that bring the events
  -- about each single peer in the same order, however the events about different peers are
  -- interleaved, leave a node with a sound table with the same answers up to their order.
  pub answer-schedule :
      {Key : Type 0} (n : Node Key) (es fs : List Event) (t : String)
      → IsValid n
      → ((p : PeerId) → select (is_about p) es ≡ select (is_about p) fs)
      → answer t (run unmarshal es n) ≡ answer t (run unmarshal fs n)
  answer-schedule n es fs t v same =
      answer-same_table _ _ t (run-IsValid unmarshal es n v) (run-IsValid unmarshal fs n v) λ p.
        let self = n.info.id in
        let known = Dict.lookup p n.neighbors in
        lookup-run unmarshal es n p v
        ∙ observe-about self p es known
        ∙ ap (foldl (observe unmarshal self p) known) (same p)
        ∙ sym (lookup-run unmarshal fs n p v ∙ observe-about self p fs known)
