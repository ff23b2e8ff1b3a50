-- ===== src/Discovery/Portals/FirstWins.antt =====
-- A discovery node keeps what it heard first of a portal.
use libp2p_experiment.Base.{
  ◌≡◌, ◌≢◌, String, none, some, arith, inl, inr, Bool-cases, ◌==◌, string_eq,
}
use libp2p_experiment.Base.Dict
use libp2p_experiment.Base.Effects.{Result, ok, err, crash, lift, ◌>>=◌}
use libp2p_experiment.Os.{Bytes, FilePath, Fs}
use libp2p_experiment.FlatBuffers.{FlatBuffers, Table}
use libp2p_experiment.Node.{PeerId}
use libp2p_experiment.Posemesh.{get_size_prefixed_root_as}
use libp2p_experiment.Posemesh.Portal
use libp2p_experiment.Discovery.{Directory}
use libp2p_experiment.Discovery.Portals.{keep_new, receive_portal}

module _ (fb : FlatBuffers) (base : FilePath) (bytes : Bytes) where
  keep_new-keeps :
      (portal : Table) (fs : Fs) (w : Directory) (id : String) (old : Table)
      → Dict.lookup id w.portal_list ≡ some old
      → Dict.lookup id (keep_new fb base bytes portal (fs, w)).1.1.portal_list ≡ some old
  unfolding keep_new
  keep_new-keeps portal fs w id old h =
      ground
        (arith, Dict.lookup-insert id (fb.text (Portal.short_id fb portal)) portal w.portal_list)

  read_portal-keeps :
      (r : Result Table) (fs : Fs) (w : Directory) (id : String) (old : Table)
      → Dict.lookup id w.portal_list ≡ some old
      → Dict.lookup id ((lift r >>= keep_new fb base bytes) (fs, w)).1.1.portal_list ≡ some old
  read_portal-keeps (ok portal) fs w id old h = keep_new-keeps portal fs w id old h
  read_portal-keeps (err e) fs w id old h = h
  read_portal-keeps (crash m) fs w id old h = h

  -- A portal that is known under an id stays as it is, whatever message any node publishes and
  -- whatever becomes of the write to the disk.
  pub receive_portal-keeps :
      (self from : PeerId) (fs : Fs) (w : Directory) (id : String) (old : Table)
      → Dict.lookup id w.portal_list ≡ some old
      → Dict.lookup id (receive_portal fb self base from bytes (fs, w)).1.1.portal_list ≡ some old
  unfolding receive_portal
  receive_portal-keeps self from fs w id old h = elim (Bool-cases (from == self)) [
    | inl e ↦ rw e h
    | inr e ↦ rw e (read_portal-keeps (get_size_prefixed_root_as fb bytes 0) fs w id old h)
  ]

  -- A message of another node that can be read enters its portal where the id is new, and the
  -- lookup then finds the portal that was published.
  pub receive_portal_new :
      (self from : PeerId) (fs : Fs) (w : Directory) (portal : Table)
      → from ≢ self
      → get_size_prefixed_root_as fb bytes 0 ≡ ok portal
      → Dict.lookup (fb.text (Portal.short_id fb portal)) w.portal_list ≡ none
      → Dict.lookup
          (fb.text (Portal.short_id fb portal))
          (receive_portal fb self base from bytes (fs, w)).1.1.portal_list
        ≡ some portal
  unfolding receive_portal keep_new
  receive_portal_new self from fs w portal other read unknown = rw read (
      ground (
        arith,
        Dict.lookup-insert (fb.text (Portal.short_id fb portal))
            (fb.text (Portal.short_id fb portal)) portal w.portal_list,
      ))
