-- ===== src/Node/Identity/Persistence.antt =====
-- A node keeps its identity: what one run saved, every later run loads.
use libp2p_experiment.Base.{
  ◌≡◌, refl, ◌≢◌, ◌∙◌, sym, String, [], ◌∷◌, ◌++◌, arith, false, some, inl, inr,
}
use libp2p_experiment.Base.Effects.{
  not_exist, Result, ok, err, crash, Exec, pure, lift, handle, handle-ok,
}
use libp2p_experiment.Os.{Bytes, FilePath, Fs, file, stat, put, mkdir_all, create, write, read_file}
use libp2p_experiment.Os.Laws.{
  create-ok, write-ok, Entry-cases, read_file-ok, after_bind, put-SameFaults, stat-put_self,
  stat-put_ne,
}
use libp2p_experiment.Crypto.{Crypto, IsLawful}
use libp2p_experiment.Node.Identity.{
  must, must-lift_ok, create_marker, create_identity, on_open_error, init_peer_identity,
}

-- Inversion: what succeeds under `must` succeeds without it.
must-eq-ok :
    {S A : Type 0} (m : Exec S A) (s : S) {a : A} {t : S} → must m s ≡ (ok a, t) → m s ≡ (ok a, t)
must-eq-ok {S} {A} m s {a} {t} h = go (m s) refl h
  where
    go : (r : Result A × S) → m s ≡ r → must (λ _. r) s ≡ (ok a, t) → m s ≡ (ok a, t)
    go (ok b, u) e k = ground arith
    go (err x, u) e k = cc
    go (crash x, u) e k = cc

must-lift :
    {S A : Type 0} (r : Result A) (s : S) {a : A} {t : S}
    → must (lift r) s ≡ (ok a, t)
    → (r ≡ ok a) × (s ≡ t)
must-lift (ok b) s h = (ground arith, ground arith)
must-lift (err x) s h = cc
must-lift (crash x) s h = cc

read_file-eq-ok :
    (p : FilePath) (b : Bytes) (s : Fs)
    → (read_file p s).0 ≡ ok b
    → (s.broken p ≡ false) × (stat p s ≡ some (file b))
unfolding read_file
read_file-eq-ok p b s h = elim (Entry-cases (stat p s)) [
  | inl (inl e) ↦ ground arith
  | inl (inr e) ↦ ground arith
  | inr (c, e) ↦ ground arith
]

read_file-state : (p : FilePath) (s : Fs) → (read_file p s).1 ≡ s
unfolding read_file
read_file-state p s = ground arith

module _ (C : Crypto) (L : IsLawful C) (base : FilePath) where
  -- The key file holds the serialised key, and can be opened.
  pub record Saved (k : C.Key) (t : Fs) : Type 0 where
    pub content : Bytes
    pub there : stat ("peer.key" ∷ base) t ≡ some (file content)
    pub reads : C.unmarshal content ≡ ok k
    pub opens : t.broken ("peer.key" ∷ base) ≡ false

  -- The marker is another file.
  create_marker-Saved :
      (k : C.Key) (s t : Fs) (pid : String) {u : Unit {0}}
      → C.peer_id k ≡ ok pid
      → Saved k s
      → create pid base s ≡ (ok u, t)
      → Saved k t
  create_marker-Saved k s t pid e v h = rw (create-ok pid base s t h).1 (record {
    content = v.content;
    there = stat-put_ne _ pid base _ s other ∙ v.there;
    reads = v.reads;
    opens = rw (put-SameFaults (pid ∷ base) (file []) s).broken v.opens;
  })
    where
      other : ("peer.key" ∷ base) ≢ (pid ∷ base)
      other p = L.peer_id_name k pid e (cc)

  marker_keeps :
      (r : Result String) (k : C.Key) (s t : Fs) {u : Unit {0}}
      → C.peer_id k ≡ r
      → Saved k s
      → create_marker C base r s ≡ (ok u, t)
      → Saved k t
  unfolding create_marker
  marker_keeps (ok pid) k s t e v h =
      create_marker-Saved k s t pid e v (must-eq-ok (create pid base) s h)
  marker_keeps (err x) k s t e v h = cc
  marker_keeps (crash x) k s t e v h = cc

  write-Saved :
      (k : C.Key) (content : Bytes) (s t : Fs) {u : Unit {0}}
      → C.marshal k ≡ ok content
      → s.broken ("peer.key" ∷ base) ≡ false
      → stat ("peer.key" ∷ base) s ≡ some (file [])
      → write ("peer.key" ∷ base) content s ≡ (ok u, t)
      → Saved k t
  write-Saved k content s t e fine empty h =
      let (old, was, now) = write-ok ("peer.key" ∷ base) content s t h in
      rw now (record {
        content = content;
        there = stat-put_self "peer.key" base _ s ∙ ground arith;
        reads = L.unmarshal-marshal k content e;
        opens = rw (put-SameFaults ("peer.key" ∷ base) (file (old ++ content)) s).broken fine;
      })

  write_created :
      (k : C.Key) (content : Bytes) (s s' s'' t : Fs) {u : Unit {0}}
      → C.marshal k ≡ ok content
      → s.broken ("peer.key" ∷ base) ≡ false
      → s' ≡ put ("peer.key" ∷ base) (file []) s
      → s' ≡ s''
      → write ("peer.key" ∷ base) content s'' ≡ (ok u, t)
      → Saved k t
  write_created k content s s' s'' t e fine made same h =
      let now = sym same ∙ made in
      write-Saved k content s'' t e
        (rw (now, (put-SameFaults ("peer.key" ∷ base) (file []) s).broken) fine)
        (rw now (stat-put_self "peer.key" base (file []) s)) h

  returned :
      (a : C.Key) (s : Fs) (b : C.Key) (t : Fs) → pure a s ≡ (ok b, t) → Saved a s → Saved b t
  returned a s b t e v =
      let p : a ≡ b = ground arith in let q : s ≡ t = ground arith in rw (← p, ← q) v

  create_identity-Saved :
      (generated : Result C.Key) (s : Fs) (k : C.Key) (t : Fs)
      → create_identity C generated base s ≡ (ok k, t)
      → Saved k t
  unfolding create_identity
  create_identity-Saved generated s = after_bind (must (lift generated)) _ s λ priv s1 e1.
      after_bind (must (mkdir_all base)) _ s1 λ _ s2 e2.
        after_bind (must (create "peer.key" base)) _ s2 λ _ s3 e3.
          after_bind (must (lift (C.marshal priv))) _ s3 λ content s4 e4.
            after_bind (must (write ("peer.key" ∷ base) content)) _ s4 λ _ s5 e5.
              after_bind (create_marker C base (C.peer_id priv)) _ s5 λ _ s6 e6 k t e7.
                let c =
                  create-ok "peer.key" base s2 s3 (must-eq-ok (create "peer.key" base) s2 e3) in
                let m = must-lift (C.marshal priv) s3 e4 in
                let v =
                  write_created priv content s2 s3 s4 s5 m.0 c.0 c.1 m.1
                    (must-eq-ok (write ("peer.key" ∷ base) content) s4 e5) in
                let w = marker_keeps (C.peer_id priv) priv s5 s6 refl v e6 in
                returned priv s6 k t e7 w

  -- Both ways to a key leave it saved.
  opened :
      (generated : Result C.Key) (r : Result Bytes) (s u : Fs) (k : C.Key) (t : Fs)
      → (read_file ("peer.key" ∷ base) s).0 ≡ r
      → u ≡ s
      → handle (λ _. (r, u)) (on_open_error C generated base) (λ c. must (lift (C.unmarshal c))) s
        ≡ (ok k, t)
      → Saved k t
  unfolding on_open_error
  opened generated (ok content) s u k t e same h =
      let m = must-lift (C.unmarshal content) u h in
      let r = read_file-eq-ok ("peer.key" ∷ base) content s e in
      rw (← m.1, same) (record { content = content; there = r.1; reads = m.0; opens = r.0 })
  opened generated (err not_exist) s u k t e same h = create_identity-Saved generated u k t h
  opened generated (err _) s u k t e same h = cc
  opened generated (crash m) s u k t e same h = cc

  pub init_peer_identity-Saved :
      (generated : Result C.Key) (s : Fs) (k : C.Key) (t : Fs)
      → init_peer_identity C generated base s ≡ (ok k, t)
      → Saved k t
  unfolding init_peer_identity
  init_peer_identity-Saved generated s k t h =
      opened generated _ s _ k t refl (read_file-state ("peer.key" ∷ base) s) h

  pub init_peer_identity_loads :
      (generated : Result C.Key) (k : C.Key) (t : Fs)
      → Saved k t
      → init_peer_identity C generated base t ≡ (ok k, t)
  unfolding init_peer_identity
  init_peer_identity_loads generated k t v =
      handle-ok (read_file ("peer.key" ∷ base)) (on_open_error C generated base)
        (λ c. must (lift (C.unmarshal c))) t
        (read_file-ok ("peer.key" ∷ base) v.content t v.opens v.there)
      ∙ must-lift_ok (C.unmarshal v.content) t v.reads

  -- An identity that was set up once is kept: the key that a successful call returns is what every
  -- later call returns on the file system that the first one left, whatever key the random
  -- generator would have given, and that call changes nothing. The crypto package is lawful.
  pub init_peer_identity_again :
      (generated other : Result C.Key) (s : Fs) (k : C.Key) (t : Fs)
      → init_peer_identity C generated base s ≡ (ok k, t)
      → init_peer_identity C other base t ≡ (ok k, t)
  init_peer_identity_again generated other s k t h =
      init_peer_identity_loads other k t (init_peer_identity-Saved generated s k t h)
