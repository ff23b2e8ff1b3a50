-- ===== src/Discovery/Domains/Answers.antt =====
-- What a discovery node answers for the domains that it made.
use libp2p_experiment.Base.{
  ◌≡◌, ◌∙◌, ap, sym, String, Bool, some, arith, inl, inr, Bool-cases, ◌==◌, string_eq,
}
use libp2p_experiment.Base.Dict
use libp2p_experiment.Base.Effects.{Result, ok, result_of, state_of}
use libp2p_experiment.Os.{Bytes, FilePath, Fs}
use libp2p_experiment.Os.Laws.{after_bind}
use libp2p_experiment.Crypto.{Crypto}
use libp2p_experiment.Node.{PeerId}
use libp2p_experiment.Domain.{Domain, Json}
use libp2p_experiment.Cluster.{initialize_domain_cluster}
use libp2p_experiment.Discovery.{Topic, Directory, World}
use libp2p_experiment.Discovery.Domains.{
  on_sent, remember, publish_domain, create_domain, find_domain, receive_domain,
}

module _ (json : Json) (network : Topic → Bytes → Result (Unit {0})) where
  -- A domain that was made is entered, and the reply is its text.
  abbrev Answered : Bytes → World → Type 0
  Answered reply w =
      (d : Domain) × (json.encode d ≡ ok reply) × (Dict.lookup d.id w.1.domain_list ≡ some d)

  create_domain-Answered :
      (C : Crypto) (addressable reachable : PeerId → Bool) (base : FilePath)
      (generated : Result C.Key) (request : Bytes) (w : World) (reply : Bytes) (w' : World)
      → create_domain json network C addressable reachable base generated request w ≡ (ok reply, w')
      → Answered reply w'
  unfolding create_domain
  create_domain-Answered C addressable reachable base generated request w =
      after_bind
        (on_sent (initialize_domain_cluster C json addressable reachable base generated request)) _
        w
        λ d w1 e1. after_bind (publish_domain json network d) _ w1 λ _ w2 e2.
          after_bind (remember d) _ w2 λ _ w3 e3 reply w' e4. (
            d,
            result_of e4,
            ap (λ (x : World). Dict.lookup d.id x.1.domain_list) (sym (state_of e3 ∙ state_of e4))
                ∙ ground (arith, Dict.lookup-insert d.id d.id d w2.1.domain_list),
          )

  -- Where making a domain succeeds, the reply is the text of a domain, and whoever asks for the id
  -- of that domain afterwards gets the same text.
  pub find_domain-create_domain :
      (C : Crypto) (addressable reachable : PeerId → Bool) (base : FilePath)
      (generated : Result C.Key) (request : Bytes) (w : World) (reply : Bytes) (w' : World)
      (text : Bytes → String)
      → create_domain json network C addressable reachable base generated request w ≡ (ok reply, w')
      → (d : Domain) × (json.encode d ≡ ok reply)
        × ((question : Bytes)
            → text question ≡ d.id
            → find_domain json text question w'.1 ≡ some (ok reply))
  unfolding find_domain
  find_domain-create_domain C addressable reachable base generated request w reply w' text h =
      let (d, e, found) =
        create_domain-Answered C addressable reachable base generated request w reply w' h in
      (d, e, λ question q. rw (find_domain, q, found, e))

-- What other discovery nodes publish goes to the disk only: the domains that this node answers for
-- stay the same, so a domain that it received is not found before the next start.
pub receive_domain-domain_list :
    (json : Json) (self : PeerId) (base : FilePath) (from : PeerId) (bytes : Bytes) (fs : Fs)
    (w : Directory)
    → (receive_domain json self base from bytes (fs, w)).1.1 ≡ w
unfolding receive_domain
receive_domain-domain_list json self base from bytes fs w = elim (Bool-cases (from == self)) [
  | inl e ↦ rw e
  | inr e ↦ rw e (ground arith)
]
