-- ===== src/Discovery/Portals.antt =====
-- example/discovery_node/main.go: the handler of portals and the exchange of portals.
pub mod FirstWins
pub mod Exchange
use libp2p_experiment.Base.{
  ℕ, ◌<◌, String, Bool, true, false, Option, none, some, List, [], ◌∷◌, if◌then◌else◌, ◌==◌,
  string_eq, take, drop,
}
use libp2p_experiment.Base.Dict
use libp2p_experiment.Base.Dict.{Dict}
use libp2p_experiment.Base.Effects.{
  Error, Result, ok, err, crash, Exec, pure, raise, lift, ◌>>=◌, ◌>>◌, handle,
}
use libp2p_experiment.Os.{Bytes, FilePath, Fs, mkdir_all, create, write}
use libp2p_experiment.FlatBuffers.{FlatBuffers, Table, BuilderApi}
use libp2p_experiment.Node.{PeerId}
use libp2p_experiment.Posemesh.{get_root_as, get_size_prefixed_root_as}
use libp2p_experiment.Posemesh.Portal
use libp2p_experiment.Utils.Receive.{on_fs}
use libp2p_experiment.Discovery.{Topic, portals, Directory, World, publish}

abbrev pub remember_portal : String → Table → Directory → Directory
remember_portal id portal w = record w { portal_list = Dict.insert id portal w.portal_list }

module _ (fb : FlatBuffers) where
  -- `publishPortal`: the portal built anew, short id first, then size and default name.
  unfoldable pub portal_message : (api : BuilderApi) → Table → Bytes
  portal_message api portal =
      let (default_name, b1) =
        api.create_byte_string (Portal.default_name fb portal) api.new_builder in
      let (short_id, b2) = api.create_byte_string (Portal.short_id fb portal) b1 in
      let b3 = api.prepend_uoffset_slot 2 short_id 0 (api.start_object 3 b2) in
      let b4 = api.prepend_float32_slot 1 (Portal.size fb portal) 0 b3 in
      let (p, b5) = api.end_object (api.prepend_uoffset_slot 0 default_name 0 b4) in
      api.finished_bytes (api.finish_size_prefixed p b5)

  -- `publishPortals`, with the publication of one; an error is logged.
  unfoldable pub publish_portals :
      (api : BuilderApi)
      → (Topic → Bytes → Result (Unit {0}))
      → Dict String Table
      → Exec World (Unit {0})
  unfolding publish portal_message
  publish_portals api network [] = pure tt
  publish_portals api network ((_, portal) ∷ rest) =
      handle (publish network portals (portal_message api portal)) (λ _. pure tt) pure
      >> publish_portals api network rest

  -- One message in `receivePortals`. A portal that is known is passed over.
  unfoldable pub store_portal : FilePath → String → Bytes → Exec Fs (Unit {0})
  store_portal base id bytes = do
    mkdir_all ("portals" ∷ base)
    create id ("portals" ∷ base)
    handle (write (id ∷ "portals" ∷ base) bytes) (λ _. pure tt) pure

  unfoldable pub keep_new : FilePath → Bytes → Table → Exec World (Unit {0})
  unfolding store_portal
  keep_new base bytes portal (fs, w) =
      elim (Dict.lookup (fb.text (Portal.short_id fb portal)) w.portal_list) [
        | some _ ↦ (ok tt, (fs, w))
        | none ↦
            on_fs (store_portal base (fb.text (Portal.short_id fb portal)) bytes)
              (fs, remember_portal (fb.text (Portal.short_id fb portal)) portal w)
      ]

  unfoldable pub receive_portal : PeerId → FilePath → PeerId → Bytes → Exec World (Unit {0})
  unfolding keep_new
  receive_portal self base from bytes =
      if from == self
      then pure tt
      else lift (get_size_prefixed_root_as fb bytes 0) >>= keep_new base bytes

  -- `createPortalStreamHandler` on the bytes behind the size prefix: the portal is entered, also over
  -- one that is known, and published; a failed publication is only logged.
  unfoldable pub create_portal :
      (api : BuilderApi) → (Topic → Bytes → Result (Unit {0})) → Bytes → Exec World (Unit {0})
  unfolding publish
  create_portal api network buf = lift (get_root_as fb buf 0) >>= λ portal (fs, w).
      handle (publish network portals (portal_message api portal)) (λ _. pure tt) pure
        (fs, remember_portal (fb.text (Portal.short_id fb portal)) portal w)
