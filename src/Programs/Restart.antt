-- ===== src/Programs/Restart.antt =====
-- A program that is started again in the directory where it ran before.
use mathlib.Core.Path.{subst}
use libp2p_experiment.Base.{◌≡◌, refl, ◌∙◌, sym, [], ◌∷◌}
use libp2p_experiment.Base.Effects.{
  Result, ok, err, crash, Exec, pure, fatal, lift, ◌>>=◌, >>=-ok, handle, handle-ok, state_of,
}
use libp2p_experiment.Os.{FilePath, Fs}
use libp2p_experiment.Os.Laws.{after_bind}
use libp2p_experiment.Crypto.{Crypto, IsLawful}
use libp2p_experiment.Config.{Config}
use libp2p_experiment.Node.{Node, NodeInfo}
use libp2p_experiment.Node.Identity.{init_peer_identity, new_node}
use libp2p_experiment.Node.Identity.Persistence.{init_peer_identity_again}
use libp2p_experiment.Programs.{described, launch}

state-lift :
    {A B : Type 0} (r : Result A) (f : A → B) (s : Fs) → ((lift r >>= λ a. pure (f a)) s).1 ≡ s
state-lift (ok a) f s = refl
state-lift (err e) f s = refl
state-lift (crash m) f s = refl

module _ (C : Crypto) (L : IsLawful C) where
  -- `NewNode`, once it has the key.
  abbrev with_key : NodeInfo → FilePath → C.Key → Exec Fs (Node C.Key)
  with_key info base k = lift (C.peer_id k) >>= λ id. pure (record {
    info = record info { id = id };
    neighbors = [];
    job_list = [];
    base_path = base;
    identity = k;
  })

  state-with_key :
      (info : NodeInfo) (base : FilePath) (k : C.Key) (s : Fs) → (with_key info base k s).1 ≡ s
  state-with_key info base k s = state-lift (C.peer_id k) _ s

  -- A node that was made once is made again: it has the same key, id and home.
  pub new_node_again :
      (generated other : Result C.Key) (info : NodeInfo) (base : FilePath) (s : Fs) (n : Node C.Key)
      (t : Fs)
      → new_node C generated info base s ≡ (ok n, t)
      → new_node C other info base t ≡ (ok n, t)
  unfolding new_node
  new_node_again generated other info base s n t h =
      let p = info.name ∷ base in
      let m = init_peer_identity C other p in
      after_bind {P = λ (b : Node C.Key) (v : Fs). (m >>= with_key info p) v ≡ (ok b, v)}
        (init_peer_identity C generated p) (with_key info p) s
        (λ k u e b v q.
          let same : u ≡ v = sym (state-with_key info p k u) ∙ state_of q in
          subst (λ (x : Fs). (m >>= with_key info p) x ≡ (ok b, v)) same
            (>>=-ok m (with_key info p) u (init_peer_identity_again C L p generated other s k u e)
              ∙ q))
        n t h

  -- A program that started once starts again as the same node: on the disk that the first start left,
  -- whatever key would be generated, the later start gives the same configuration and the same node,
  -- with its key, id and home, and changes nothing. The crypto package is lawful.
  pub launch_again :
      (generated other : Result C.Key) (cfg : Config) (base : FilePath) (s : Fs)
      (started : Config × Node C.Key) (t : Fs)
      → launch C generated cfg base s ≡ (ok started, t)
      → launch C other cfg base t ≡ (ok started, t)
  unfolding launch
  launch_again generated other cfg base s started t h =
      go (new_node C generated (described cfg) base s) refl h
    where
      found : Node C.Key → Exec Fs (Config × Node C.Key)
      found n = pure (cfg, n)

      go :
          (r : Result (Node C.Key) × Fs)
          → new_node C generated (described cfg) base s ≡ r
          → handle (λ _. r) (λ _. fatal "Failed to create node") found s ≡ (ok started, t)
          → handle
              (new_node C other (described cfg) base)
              (λ _. fatal "Failed to create node")
              found
              t
            ≡ (ok started, t)
      go (ok n, u) e m =
          let same : u ≡ t = state_of m in
          let again = new_node_again generated other (described cfg) base s n u e in
          subst
            (λ (v : Fs).
              handle (new_node C other (described cfg) base) (λ _. fatal "Failed to create node")
                found v
              ≡ (ok started, t))
            same
            (handle-ok (new_node C other (described cfg) base) (λ _. fatal "Failed to create node")
                found u again
              ∙ m)
      go (err x, u) e m = absurd (cc)
      go (crash x, u) e m = absurd (cc)
