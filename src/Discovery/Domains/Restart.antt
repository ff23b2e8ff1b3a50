-- ===== src/Discovery/Domains/Restart.antt =====
-- A domain that another discovery node publishes, before and after the next start.
use libp2p_experiment.Base.{◌≡◌, ◌∙◌, ap, ◌≢◌, String, some, ◌∷◌, arith, false, list_eq, string_eq}
use libp2p_experiment.Base.Dict
use libp2p_experiment.Base.Effects.{Result, ok, pure, handle, handle-ok, then_ok}
use libp2p_experiment.Os.{Bytes, FilePath, Fs, dir, file, stat, mkdir_all, create, write, read_file}
use libp2p_experiment.Os.Laws.{Healthy, NoFileOn, read_file-ok}
use libp2p_experiment.Os.Saving.{saved, Saves, saves}
use libp2p_experiment.Node.{PeerId}
use libp2p_experiment.Domain.{Domain, Json}
use libp2p_experiment.Cluster.{domain_dir}
use libp2p_experiment.Utils.Receive.{on_fs}
use libp2p_experiment.Discovery.{Topic, Directory, World, publish}
use libp2p_experiment.Discovery.Domains.{
  store_domain, receive_domain, load_domain, publish_domain, find_domain, on_meta,
}

module _ (base : FilePath) (d : Domain) (bytes : Bytes) (fs : Fs) where
  -- The disk behind the message.
  abbrev pub heard : Fs
  heard = saved "meta.json" (domain_dir base d.id) bytes fs

  store_domain_total :
      Saves "meta.json" (domain_dir base d.id) bytes fs
      → store_domain base d bytes fs ≡ (ok tt, heard)
  unfolding store_domain
  store_domain_total v = then_ok (mkdir_all (domain_dir base d.id)) _ fs v.makes (
      then_ok (create "meta.json" (domain_dir base d.id)) _ _ v.creates (
        handle-ok (write ("meta.json" ∷ domain_dir base d.id) bytes) (λ _. pure tt) pure _
          v.writes))

  receive_domain_total :
      (json : Json) (self from : PeerId) (w : Directory)
      → from ≢ self
      → json.decode bytes ≡ some d
      → Saves "meta.json" (domain_dir base d.id) bytes fs
      → receive_domain json self base from bytes (fs, w) ≡ (ok tt, (heard, w))
  unfolding receive_domain
  receive_domain_total json self from w other read v = ground (arith, other)

module _ (json : Json) (network : Topic → Bytes → Result (Unit {0})) (base : FilePath)
    (name : String) (d : Domain) (bytes : Bytes) where
  publish_domain-domain_list :
      (fs : Fs) (w : Directory)
      → (handle (publish_domain json network d) (λ _. pure tt) pure (fs, w)).1.1.domain_list
        ≡ w.domain_list
  unfolding publish_domain publish
  publish_domain-domain_list fs w = ground arith

  -- What the start makes of one directory with a description in it.
  load_domain-remembers :
      (fs : Fs) (w : Directory)
      → fs.broken ("meta.json" ∷ domain_dir base name) ≡ false
      → stat ("meta.json" ∷ domain_dir base name) fs ≡ some (file bytes)
      → json.decode bytes ≡ some d
      → Dict.lookup d.id (load_domain json network base name (fs, w)).1.1.domain_list ≡ some d
  unfolding load_domain
  load_domain-remembers fs w fine there read =
      let meta = "meta.json" ∷ domain_dir base name in
      let here =
        ap (λ (r : Result Bytes × Fs). (r.0, (r.1, w))) (read_file-ok meta bytes fs fine there) in
      ap (λ (r : Result (Unit {0}) × World). Dict.lookup d.id r.1.1.domain_list)
        (handle-ok (on_fs (read_file meta)) (λ _. pure tt) (on_meta json network) (fs, w) here)
      ∙ rw (read, on_meta)
          (ap (Dict.lookup d.id) (publish_domain-domain_list fs _)
            ∙ ground (arith, Dict.lookup-insert d.id d.id d w.domain_list))

-- A domain that another node publishes is known after the next start: where nothing on the disk is
-- refused or in the way, the message is stored, and when a later run reads the directory of that
-- domain, whatever it knows by then, whoever asks it for the id gets the text of the domain.
pub find_domain-load_domain :
    (json : Json) (network : Topic → Bytes → Result (Unit {0})) (base : FilePath)
    (self from : PeerId) (text : Bytes → String) (d : Domain) (bytes question : Bytes) (fs : Fs)
    (w later : Directory)
    → from ≢ self
    → json.decode bytes ≡ some d
    → Healthy fs
    → NoFileOn (domain_dir base d.id) fs
    → stat ("meta.json" ∷ domain_dir base d.id) fs ≢ some dir
    → text question ≡ d.id
    → find_domain json text question
        (load_domain json network base d.id
          ((receive_domain json self base from bytes (fs, w)).1.0, later)).1.1
      ≡ some (json.encode d)
unfolding find_domain
find_domain-load_domain json network base self from text d bytes question fs w later other read
      healthy free no_meta asked =
    let v = saves "meta.json" (domain_dir base d.id) bytes fs healthy free no_meta in
    let found =
      load_domain-remembers json network base d.id d bytes (heard base d bytes fs) later
        (v.healthy ("meta.json" ∷ domain_dir base d.id)).0 v.holds read in
    rw (
      receive_domain_total base d bytes fs json self from w other read v,
      asked,
      found,
      find_domain,
    )
