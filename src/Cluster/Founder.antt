-- ===== src/Cluster/Founder.antt =====
-- What a node that founds a domain tells the others.
use libp2p_experiment.Base.{◌≡◌, refl, sym, ap, String, Option, none, some, ◌∷◌, arith}
use libp2p_experiment.Base.Effects.{Result, ok, lift, result_of, state_of, then_ok}
use libp2p_experiment.Os.{Bytes, FilePath, Fs}
use libp2p_experiment.Os.Laws.{after_bind}
use libp2p_experiment.Crypto.{Crypto, IsLawful}
use libp2p_experiment.Node.Identity.{init_peer_identity}
use libp2p_experiment.Node.Identity.Persistence.{init_peer_identity_again}
use libp2p_experiment.Domain.{Domain, Json}
use libp2p_experiment.Cluster.{decoded, domain_dir, prepare}

-- A domain that carries its own key: the secret is the serialised key whose peer id names it.
pub record Carries (C : Crypto) (d : Domain) : Type 0 where
  pub key : C.Key
  pub secret_is : C.unmarshal d.cluster.secret ≡ ok key
  pub id_is : C.peer_id key ≡ ok d.id

decoded-ok :
    {S : Type 0} (o : Option Domain) (s : S) {d : Domain} {t : S}
    → decoded o s ≡ (ok d, t)
    → (o ≡ some d) × (s ≡ t)
decoded-ok none s h = cc
decoded-ok (some d) s h = (ground arith, ground arith)

lift-ok :
    {S A : Type 0} (r : Result A) (s : S) {a : A} {t : S}
    → lift r s ≡ (ok a, t)
    → (r ≡ ok a) × (s ≡ t)
lift-ok r s h = (result_of h, state_of h)

-- The domain that is made of a request: the key gives it its id and its secret.
abbrev pub founded : Domain → String → Bytes → Domain
founded asked pid bytes = record asked {
  id = pid;
  cluster = record asked.cluster { secret = bytes };
}

module _ (C : Crypto) (L : IsLawful C) (json : Json) (base : FilePath) where
  -- What one successful call says about the steps in it.
  pub record Founded (request : Bytes) (s : Fs) (d : Domain) (t : Fs) (generated : Result C.Key)
      : Type 0 where
    pub asked : Domain
    pub key : C.Key
    pub requested : json.decode request ≡ some asked
    pub loaded :
        init_peer_identity C generated ("secret" ∷ domain_dir base asked.name) s ≡ (ok key, t)
    pub identified : C.peer_id key ≡ ok d.id
    pub serialised : C.marshal key ≡ ok d.cluster.secret
    pub made : d ≡ founded asked d.id d.cluster.secret

  prepare-Founded :
      (generated : Result C.Key) (request : Bytes) (s : Fs) (d : Domain) (t : Fs)
      → prepare C json base generated request s ≡ (ok d, t)
      → Founded request s d t generated
  unfolding prepare
  prepare-Founded generated request s =
      after_bind (decoded (json.decode request)) _ s λ asked s1 e1.
        after_bind (init_peer_identity C generated ("secret" ∷ domain_dir base asked.name)) _ s1
          λ k s2 e2. after_bind (lift (C.peer_id k)) _ s2 λ pid s3 e3.
            after_bind (lift (C.marshal k)) _ s3 λ bytes s4 e4 d t e5.
              let a = decoded-ok (json.decode request) s e1 in
              let i = lift-ok (C.peer_id k) s2 e3 in
              let m = lift-ok (C.marshal k) s3 e4 in
              let made : founded asked pid bytes ≡ d = ground arith in
              let same : s4 ≡ t = state_of e5 in
              rw (← made, ← same, ← m.1, ← i.1, a.1)
                (record {
                  asked = asked;
                  key = k;
                  requested = a.0;
                  loaded = e2;
                  identified = i.0;
                  serialised = m.0;
                  made = refl;
                })

  -- A domain that a founder makes of a request is the requested one with an id and a secret of its
  -- own, and the secret is a serialised key that has the id of the domain; the crypto package
  -- is lawful.
  pub prepare-Carries :
      (generated : Result C.Key) (request : Bytes) (s : Fs) (d : Domain) (t : Fs)
      → prepare C json base generated request s ≡ (ok d, t)
      → (asked : Domain) × (json.decode request ≡ some asked)
        × (d ≡ founded asked d.id d.cluster.secret)
        × Carries C d
  prepare-Carries generated request s d t h =
      let f = prepare-Founded generated request s d t h in
      (
        f.asked,
        f.requested,
        f.made,
        record {
          key = f.key;
          secret_is = L.unmarshal-marshal f.key d.cluster.secret f.serialised;
          id_is = f.identified;
        },
      )

  -- A repeated request founds nothing new: it gives the same domain, with the same id and secret,
  -- whatever key the random generator would have given, and changes nothing on the disk; the
  -- crypto package is lawful.
  pub prepare_again :
      (generated other : Result C.Key) (request : Bytes) (s : Fs) (d : Domain) (t : Fs)
      → prepare C json base generated request s ≡ (ok d, t)
      → prepare C json base other request t ≡ (ok d, t)
  unfolding prepare
  prepare_again generated other request s d t h =
      let f = prepare-Founded generated request s d t h in
      let key = "secret" ∷ domain_dir base f.asked.name in
      then_ok (decoded (json.decode request)) _ t (ap (λ o. decoded o t) f.requested) (
        then_ok (init_peer_identity C other key) _ t
          (init_peer_identity_again C L key generated other s f.key t f.loaded)
          (then_ok (lift (C.peer_id f.key)) _ t (ap (λ r. (r, t)) f.identified) (
            then_ok (lift (C.marshal f.key)) _ t (ap (λ r. (r, t)) f.serialised)
              (ap (λ x. (ok x, t)) (sym f.made)))))
