-- ===== src/Cluster/Join.antt =====
-- What a node that is invited keeps.
use mathlib.Core.Path.{subst}
use text.Mathlib.Text
use libp2p_experiment.Base.{
  true, ◌≡◌, refl, ◌∙◌, sym, ap, ◌≢◌, String, some, ◌∷◌, arith, list_eq, string_eq, false,
}
use libp2p_experiment.Base.Dict
use libp2p_experiment.Base.Effects.{Result, ok, lift, then_ok}
use libp2p_experiment.Os.{Bytes, FilePath, Fs, dir, file, stat, mkdir_all, create, write}
use libp2p_experiment.Os.Laws.{Healthy, NoFileOn, mkdir_all-stat_longer}
use libp2p_experiment.Os.Saving.{saved, Saves, saves, saves_there, stat-saved}
use libp2p_experiment.Crypto.{Crypto, IsLawful}
use libp2p_experiment.Domain.{Domain, Json, without_topic, IsLawful as IsLawfulJson}
use libp2p_experiment.Cluster.Founder.{prepare-Carries}
use libp2p_experiment.Utils.Receive.{on_fs}
use libp2p_experiment.Cluster.{
  decoded, domain_dir, prepare, Member, Services, save_secret, save_meta, on_join,
}

names_differ : ◌≢◌ {A = String} "meta.json" "secret"
names_differ e = let f : true ≡ false = ap (Text.◌==◌ "secret") (sym e) in cc

-- The network lets a node join.
pub record Accepts (C : Crypto) (json : Json) (services : Services C json) : Type 0 where
  pub keeps_keys : (p : String) (k : C.Key) → services.add_priv_key p k ≡ ok tt
  pub gossips : (p : String) → services.new_gossip_sub p ≡ ok tt
  pub joins : (t : String) → services.join t ≡ ok tt

-- The domain as a member keeps it.
abbrev pub with_topic : Domain → Domain
with_topic d = record d { cluster = record d.cluster { topic = some d.id } }

module _ (C : Crypto) (json : Json) (services : Services C json) (accepts : Accepts C json services)
    (base : FilePath) (d : Domain) (k : C.Key) (text : Bytes) where
  abbrev dir_of : FilePath
  dir_of = domain_dir base d.name

  -- The disk behind the key file, and behind the description.
  abbrev pub with_secret : Fs → Fs
  with_secret = saved "secret" dir_of d.cluster.secret

  abbrev pub with_meta : Fs → Fs
  with_meta s = saved "meta.json" dir_of text (with_secret s)

  save_secret_total :
      (s : Fs)
      → Saves "secret" dir_of d.cluster.secret s
      → C.unmarshal d.cluster.secret ≡ ok k
      → save_secret C json base d s ≡ (ok k, with_secret s)
  unfolding save_secret
  save_secret_total s v key = then_ok (mkdir_all dir_of) _ s v.makes (
      then_ok (create "secret" dir_of) _ _ v.creates (
        then_ok (lift (C.unmarshal d.cluster.secret)) _ _ (rw key refl)
          (then_ok (write ("secret" ∷ dir_of) d.cluster.secret) _ _ v.writes refl)))

  save_meta_total :
      (s : Fs)
      → Saves "meta.json" dir_of text s
      → json.encode (with_topic d) ≡ ok text
      → save_meta C json base (with_topic d) s ≡ (ok tt, saved "meta.json" dir_of text s)
  unfolding save_meta
  save_meta_total s v encoded = then_ok (mkdir_all dir_of) _ s v.makes (
      then_ok (create "meta.json" dir_of) _ _ v.creates
        (then_ok (lift (json.encode (with_topic d))) _ _ (rw encoded refl) v.writes))

  abbrev with_key : Member C json → Member C json
  with_key m = record m { priv_keys = (d.id, k) ∷ m.priv_keys }

  -- The state of the member behind the handler.
  abbrev pub joined : Member C json → Member C json
  joined m = record {
    domain_list = Dict.insert d.id (with_topic d) m.domain_list;
    priv_keys = (d.id, k) ∷ m.priv_keys;
  }

  -- The two files are beside each other.
  meta_ne_secret : ("meta.json" ∷ dir_of) ≢ ("secret" ∷ dir_of)
  meta_ne_secret e = absurd (names_differ (cc))

  secret_keeps_meta :
      (s : Fs) → stat ("meta.json" ∷ dir_of) (with_secret s) ≡ stat ("meta.json" ∷ dir_of) s
  secret_keeps_meta s =
      stat-saved "secret" dir_of d.cluster.secret s ("meta.json" ∷ dir_of) meta_ne_secret
      ∙ mkdir_all-stat_longer dir_of ("meta.json" ∷ dir_of) s (omega arith)

  -- The description is written beside the key file, which stays.
  meta_keeps_secret :
      (s : Fs)
      → Saves "secret" dir_of d.cluster.secret s
      → stat ("secret" ∷ dir_of) (with_meta s) ≡ some (file d.cluster.secret)
  meta_keeps_secret s v =
      stat-saved "meta.json" dir_of text (with_secret s) ("secret" ∷ dir_of)
        (λ e. meta_ne_secret (sym e))
      ∙ mkdir_all-stat_longer dir_of ("secret" ∷ dir_of) (with_secret s) (omega arith)
      ∙ v.holds

  on_join_total :
      (s : Fs) (m : Member C json) (request : Bytes)
      → Saves "secret" dir_of d.cluster.secret s
      → Saves "meta.json" dir_of text (with_secret s)
      → json.decode request ≡ some d
      → C.unmarshal d.cluster.secret ≡ ok k
      → C.peer_id k ≡ ok d.id
      → json.encode (with_topic d) ≡ ok text
      → on_join C json services base request (s, m) ≡ (ok tt, (with_meta s, joined m))
  unfolding on_join
  on_join_total s m request v w decoded_lem key name encoded =
      then_ok (decoded (json.decode request)) _ _ (ap (λ o. decoded o (s, m)) decoded_lem) (
        then_ok (on_fs (save_secret C json base d)) _ _
          (ap (λ (r : Result C.Key × Fs). (r.0, (r.1, m))) (save_secret_total s v key))
          (then_ok (lift (C.peer_id k)) _ _ (ap (λ r. (r, (with_secret s, m))) name) (
            then_ok (lift (services.add_priv_key d.id k)) _ _
              (ap (λ r. (r, (with_secret s, m))) (accepts.keeps_keys d.id k))
              (then_ok (lift (services.new_gossip_sub d.id)) _ _
                (ap (λ r. (r, (with_secret s, with_key m))) (accepts.gossips d.id))
                (then_ok (lift (services.join d.id)) _ _
                  (ap (λ r. (r, (with_secret s, with_key m))) (accepts.joins d.id))
                  (ap (λ (r : Result (Unit {0}) × Fs). (r.0, (r.1, joined m)))
                    (save_meta_total (with_secret s) w encoded)))))))

-- What is left of an invitation: the member has the key of the domain, which names it, enters the
-- domain, and keeps the key and the description on its disk.
pub record Invited (C : Crypto) (json : Json) (base : FilePath) (d : Domain) (text : Bytes)
    (m : Member C json) (r : Result (Unit {0}) × (Fs × Member C json)) : Type 0 where
  pub key : C.Key
  pub names : C.peer_id key ≡ ok d.id
  pub succeeds : r.0 ≡ ok tt
  pub priv_keys : r.1.1.priv_keys ≡ (d.id, key) ∷ m.priv_keys
  pub enters : Dict.lookup d.id r.1.1.domain_list ≡ some (with_topic d)
  pub secret_kept : stat ("secret" ∷ domain_dir base d.name) r.1.0 ≡ some (file d.cluster.secret)
  pub meta_kept : stat ("meta.json" ∷ domain_dir base d.name) r.1.0 ≡ some (file text)

-- A founder and a member agree: where a founder makes a domain of a request and its invitation
-- reaches another node, on whose disk nothing is refused or in the way, and which the network lets
-- join, the member ends up with the private key whose peer id is the id of the domain, enters the
-- domain under that id, and keeps the founder's serialised key and the description on its disk. The
-- crypto package and the JSON encoding are lawful, and the description can be encoded.
pub on_join-prepare :
    (C : Crypto) (L : IsLawful C) (json : Json) (J : IsLawfulJson json) (services : Services C json)
    (accepts : Accepts C json services) (founder_base base : FilePath) (generated : Result C.Key)
    (request : Bytes) (s : Fs) (d : Domain) (t : Fs) (invitation text : Bytes) (fs : Fs)
    (m : Member C json)
    → prepare C json founder_base generated request s ≡ (ok d, t)
    → json.encode d ≡ ok invitation
    → json.encode (with_topic d) ≡ ok text
    → Healthy fs
    → NoFileOn (domain_dir base d.name) fs
    → stat ("secret" ∷ domain_dir base d.name) fs ≢ some dir
    → stat ("meta.json" ∷ domain_dir base d.name) fs ≢ some dir
    → Invited C json base d text m (on_join C json services base invitation (fs, m))
on_join-prepare C L json J services accepts founder_base base generated request s d t invitation
      text fs m made_of encoded described healthy free no_secret no_meta =
    let (_, _, _, carries) =
      prepare-Carries C L json founder_base generated request s d t made_of in
    let k = carries.key in
    let e = without_topic d in
    let v = saves "secret" (domain_dir base d.name) d.cluster.secret fs healthy free no_secret in
    let kept = secret_keeps_meta C json services accepts base e k text fs in
    let w =
      saves_there "meta.json" (domain_dir base d.name) text _ v.healthy v.still_dir
        (λ x. no_meta (sym kept ∙ x)) in
    let run =
      on_join_total C json services accepts base e k text fs m invitation v w
        (J.decode-encode d invitation encoded) carries.secret_is carries.id_is described in
    subst (Invited C json base d text m) (sym run) (record {
      key = k;
      names = carries.id_is;
      succeeds = refl;
      priv_keys = refl;
      enters = ground (arith, Dict.lookup-insert d.id d.id (with_topic d) m.domain_list);
      secret_kept = meta_keeps_secret C json services accepts base e k text fs v;
      meta_kept = w.holds;
    })
