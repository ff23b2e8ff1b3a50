-- ===== src/Node/Identity/FirstRun.antt =====
-- The first run of a node: where nothing is in the way, a key is made and saved.
use libp2p_experiment.Base.{
  ◌≡◌, refl, ◌∙◌, ap, ◌≢◌, String, [], ◌∷◌, arith, false, none, some, length,
}
use libp2p_experiment.Base.Effects.{
  not_exist, Result, ok, err, Exec, pure, lift, ◌>>=◌, ◌>>◌, handle-err, then_ok,
}
use libp2p_experiment.Os.{
  Bytes, FilePath, Fs, file, dir, stat, put, mkdir_all, create, write, read_file,
}
use libp2p_experiment.Os.Laws.{
  Healthy, NoFileOn, mkdir_all_total, mkdir_all-Healthy, mkdir_all-stat_longer, create_total,
  write_total, put-Healthy, stat-put_self, stat-put_ne,
}
use libp2p_experiment.Crypto.{Crypto, IsLawful}
use libp2p_experiment.Node.Identity.{
  must, create_marker, create_identity, on_open_error, init_peer_identity, must-ok, must-lift_ok,
}

pair_path : {A S : Type 0} {r : Result A × S} {a : Result A} → r.0 ≡ a → r ≡ (a, r.1)
pair_path {r} e = ap (λ (x : Result _). (x, r.1)) e

parent-ne : (n : String) (p : FilePath) → p ≢ (n ∷ p)
parent-ne n p e = absurd (omega (arith, ap length e))

read_file_missing :
    (p : FilePath) (s : Fs)
    → s.broken p ≡ false
    → stat p s ≡ none
    → read_file p s ≡ (err not_exist, s)
unfolding read_file
read_file_missing p s fine e = ground arith

module _ (C : Crypto) (L : IsLawful C) (base : FilePath) (k : C.Key) (content : Bytes)
    (pid : String) (marshalled : C.marshal k ≡ ok content) (identified : C.peer_id k ≡ ok pid) where
  -- What `create_identity` does once the directories are there.
  abbrev files : Exec Fs C.Key
  files = do
    must (create "peer.key" base)
    c ← must (lift (C.marshal k))
    must (write ("peer.key" ∷ base) c)
    create_marker C base (C.peer_id k)
    pure k

  -- After the directories are there: the key file, and the marker beside it.
  save :
      (s : Fs)
      → Healthy s
      → stat base s ≡ some dir
      → stat ("peer.key" ∷ base) s ≡ none
      → stat (pid ∷ base) s ≡ none
      → (t : Fs) × (files s ≡ (ok k, t))
  unfolding create_marker
  save s healthy there no_key no_marker =
      let s1 = put key (file []) s in
      let s2 = put key (file content) s1 in
      let e1 = create_total "peer.key" base s (healthy key).0 there (λ e. ground arith) in
      let e2 =
        write_total key content [] s1 (put-Healthy key _ s healthy key).1
          (stat-put_self "peer.key" base _ s) in
      let there2 =
        stat-put_ne base "peer.key" base (file content) s1 (parent-ne "peer.key" base)
        ∙ stat-put_ne base "peer.key" base (file []) s (parent-ne "peer.key" base)
        ∙ there in
      let free2 =
        stat-put_ne marker "peer.key" base (file content) s1 other
        ∙ stat-put_ne marker "peer.key" base (file []) s other
        ∙ no_marker in
      let h2 = put-Healthy key (file content) s1 (put-Healthy key (file []) s healthy) in
      let e3 = create_total pid base s2 (h2 marker).0 there2 (λ e. ground (arith, free2)) in
      (
        put marker (file []) s2,
        then_ok (must (create "peer.key" base)) _ s (must-ok (create "peer.key" base) s e1) (
            then_ok (must (lift (C.marshal k))) _ s1 (must-lift_ok (C.marshal k) s1 marshalled) (
              then_ok (must (write key content)) _ s1 (must-ok (write key content) s1 e2) (
                then_ok (create_marker C base (C.peer_id k)) _ s2
                  (rw (identified, create_marker) (must-ok (create pid base) s2 e3)) refl))),
      )
    where
      key : FilePath
      key = "peer.key" ∷ base

      marker : FilePath
      marker = pid ∷ base

      other : marker ≢ key
      other e = L.peer_id_name k pid identified (cc)

  -- The directories do not exist yet, or they do: the two files are new in either case.
  in_directory :
      (s : Fs)
      → Healthy s
      → NoFileOn base s
      → stat ("peer.key" ∷ base) s ≡ none
      → stat (pid ∷ base) s ≡ none
      → (t : Fs) × (create_identity C (ok k) base s ≡ (ok k, t))
  unfolding create_identity
  in_directory s healthy free no_key no_marker =
      let made = mkdir_all_total base s healthy free in
      let s1 = (mkdir_all base s).1 in
      let (t, e) =
        save s1 (mkdir_all-Healthy base s healthy) made.1
          (mkdir_all-stat_longer base ("peer.key" ∷ base) s (omega arith) ∙ no_key)
          (mkdir_all-stat_longer base (pid ∷ base) s (omega arith) ∙ no_marker) in
      (
        t,
        then_ok (must (mkdir_all base)) (λ _. files) s
            (must-ok (mkdir_all base) s {t = s1} (pair_path made.0)) e,
      )

  -- The first run succeeds: where the crypto package is lawful, no operation is refused, no file
  -- stands in the way of the directories, and neither the key nor the marker is there, and the
  -- generated key can be serialised and has an id, the call returns that key.
  pub init_peer_identity_first :
      (s : Fs)
      → Healthy s
      → NoFileOn base s
      → stat ("peer.key" ∷ base) s ≡ none
      → stat (pid ∷ base) s ≡ none
      → (t : Fs) × (init_peer_identity C (ok k) base s ≡ (ok k, t))
  unfolding init_peer_identity on_open_error
  init_peer_identity_first s healthy free no_key no_marker =
      let (t, e) = in_directory s healthy free no_key no_marker in
      (
        t,
        handle-err (read_file ("peer.key" ∷ base)) (on_open_error C (ok k) base)
              (λ c. must (lift (C.unmarshal c))) s
              (read_file_missing ("peer.key" ∷ base) s (healthy ("peer.key" ∷ base)).0 no_key)
            ∙ e,
      )
