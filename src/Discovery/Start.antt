-- ===== src/Discovery/Start.antt =====
-- example/discovery_node/main.go: `SyncDomainsAndPortals`, and what `main` does once the host runs.
-- The log holds the calls that were made, in their order; what the topics and the load at the start
-- answer is an argument. A deferred call of `Close` runs when the function returns.
use libp2p_experiment.Base.{
  ◌≡◌, ◌≢◌, refl, Bool, true, false, List, [], ◌∷◌, ◌++◌, ◌⊎◌, inl, inr, ◌&&◌,
}
use libp2p_experiment.Base.Effects.{Result, ok, err, crash, Exec, pure, fatal, handle, ◌>>◌}
use libp2p_experiment.Discovery.{Topic, portals, domains}
use libp2p_experiment.Node.Protocols.{
  Protocol, create_domain, create_portal, find_domain, update_domain, fetch_domains,
}

pub data Call : Type 0 where
  join : Topic → Call
  publish_list : Topic → Call
  subscribe : Topic → Call
  listen : Topic → Call
  close : Topic → Call
  load : Call
  serve : Protocol → Call

abbrev pub Log : Type 0
Log = List Call

-- A call that gives a value or an error, and one that only starts something.
abbrev call : Call → Result (Unit {0}) → Exec Log (Unit {0})
call c r log = (r, log ++ c ∷ [])

abbrev begin : Call → Exec Log (Unit {0})
begin c = call c (ok tt)

-- `defer topic.Close()`
abbrev closing : Topic → Exec Log (Unit {0}) → Exec Log (Unit {0})
closing t m log = ((m log).0, (m log).1 ++ close t ∷ [])

module _ (joined subscribed : Topic → Result (Unit {0})) where
  unfoldable pub sync_domains : Exec Log (Unit {0})
  sync_domains =
      call (join domains) (joined domains)
      >> closing domains (
          begin (publish_list domains)
          >> call (subscribe domains) (subscribed domains)
          >> begin (listen domains))

  -- `SyncDomainsAndPortals`
  unfoldable pub sync_domains_and_portals : Exec Log (Unit {0})
  unfolding sync_domains
  sync_domains_and_portals =
      call (join portals) (joined portals)
      >> closing portals (
          begin (publish_list portals)
          >> call (subscribe portals) (subscribed portals)
          >> begin (listen portals)
          >> sync_domains)

  -- The callback of `main`: the exchange, the load of the domains, and the handlers.
  unfoldable pub on_start : Result (Unit {0}) → Exec Log (Unit {0})
  unfolding sync_domains_and_portals
  on_start loaded =
      handle sync_domains_and_portals (λ _. fatal "Failed to sync domains and portals") pure
      >> call load loaded
      >> begin (serve create_domain)
      >> begin (serve create_portal)
      >> begin (serve find_domain)
      >> begin (serve update_domain)
      >> begin (serve fetch_domains)

-- Whether no handler was set.
unfoldable pub quiet : Log → Bool
quiet [] = true
quiet (serve p ∷ calls) = false
quiet (c ∷ calls) = quiet calls

-- The calls of a start at which nothing fails.
abbrev pub whole : Log
whole =
    join portals
    ∷ publish_list portals
    ∷ subscribe portals
    ∷ listen portals
    ∷ join domains
    ∷ publish_list domains
    ∷ subscribe domains
    ∷ listen domains
    ∷ close domains
    ∷ close portals
    ∷ load
    ∷ serve create_domain
    ∷ serve create_portal
    ∷ serve find_domain
    ∷ serve update_domain
    ∷ serve fetch_domains
    ∷ []

abbrev is_ok : Result (Unit {0}) → Bool
is_ok (ok _) = true
is_ok (err _) = false
is_ok (crash _) = false

-- Whether every answer is no error.
abbrev pub all_ok :
    (Topic → Result (Unit {0})) → (Topic → Result (Unit {0})) → Result (Unit {0}) → Bool
all_ok joined subscribed loaded =
    is_ok (joined portals)
    && is_ok (subscribed portals)
    && is_ok (joined domains)
    && is_ok (subscribed domains)
    && is_ok loaded

-- No answer is an error and everything was done; or one is, and the process or the callback ended
-- before the first handler was set.
abbrev pub Outcome : Bool → Result (Unit {0}) × Log → Type 0
Outcome good r =
    ((good ≡ true) × (r ≡ (ok tt, whole))) ⊎ ((good ≡ false) × ((r.0 ≢ ok tt) × (quiet r.1 ≡ true)))

-- The answers by topic.
abbrev by_topic : Result (Unit {0}) → Result (Unit {0}) → Topic → Result (Unit {0})
by_topic p d portals = p
by_topic p d domains = d

Outcome-by_topic :
    (jp jd sp sd ld : Result (Unit {0}))
    → Outcome
        (all_ok (by_topic jp jd) (by_topic sp sd) ld)
        (on_start (by_topic jp jd) (by_topic sp sd) ld [])
unfolding on_start sync_domains_and_portals sync_domains quiet
Outcome-by_topic (err e) jd sp sd ld = inr (refl, ((λ p. cc), refl))
Outcome-by_topic (crash m) jd sp sd ld = inr (refl, ((λ p. cc), refl))
Outcome-by_topic (ok _) jd (err e) sd ld = inr (refl, ((λ p. cc), refl))
Outcome-by_topic (ok _) jd (crash m) sd ld = inr (refl, ((λ p. cc), refl))
Outcome-by_topic (ok _) (err e) (ok _) sd ld = inr (refl, ((λ p. cc), refl))
Outcome-by_topic (ok _) (crash m) (ok _) sd ld = inr (refl, ((λ p. cc), refl))
Outcome-by_topic (ok _) (ok _) (ok _) (err e) ld = inr (refl, ((λ p. cc), refl))
Outcome-by_topic (ok _) (ok _) (ok _) (crash m) ld = inr (refl, ((λ p. cc), refl))
Outcome-by_topic (ok _) (ok _) (ok _) (ok _) (err e) = inr (refl, ((λ p. cc), refl))
Outcome-by_topic (ok _) (ok _) (ok _) (ok _) (crash m) = inr (refl, ((λ p. cc), refl))
Outcome-by_topic (ok _) (ok _) (ok _) (ok _) (ok _) = inl (refl, refl)

-- A discovery node answers no request before it takes part in the exchange and has loaded its
-- domains: where both topics are joined and subscribed to and the domains are loaded, every call is
-- made in its order, `Close` being called on both topics before the load; where any of these five
-- calls gives an error, the start ends in a failure before the first handler is set.
pub on_start-Outcome :
    (joined subscribed : Topic → Result (Unit {0})) (loaded : Result (Unit {0}))
    → Outcome (all_ok joined subscribed loaded) (on_start joined subscribed loaded [])
unfolding on_start sync_domains_and_portals sync_domains quiet
on_start-Outcome joined subscribed loaded =
    Outcome-by_topic (joined portals) (joined domains) (subscribed portals) (subscribed domains)
      loaded
