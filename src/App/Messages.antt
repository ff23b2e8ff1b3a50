-- ===== src/App/Messages.antt =====
-- example/app/main.go: the messages that the application sends, and where it sends them. The slots
-- are those of the generated Libposemesh/DownloadDomainDataReq.go, Domain.go, Portal.go,
-- DomainData.go and Partition.go.
pub mod Requested
pub mod Uploaded
pub mod Rounds
pub mod Displayed
pub mod Answered
pub mod Portals
use libp2p_experiment.Base.{string_eq, ℕ, zero, suc, String, List, [], ◌∷◌, ◌++◌, length}
use libp2p_experiment.Base.Dict
use libp2p_experiment.Base.Dict.{Dict}
use libp2p_experiment.Base.Effects.{Result, ok, err, crash, Exec, pure, lift, ◌>>=◌, ◌>>◌}
use libp2p_experiment.Os.{Bytes}
use libp2p_experiment.FlatBuffers.{FlatBuffers, Table, BuilderApi, uoffset}
use libp2p_experiment.Node.{PeerId, OutputInfo}
use libp2p_experiment.Posemesh.{get_size_prefixed_root_as}
use libp2p_experiment.Posemesh.DomainData.{any_domain_data_partition}
use libp2p_experiment.DataNode.Message.{add_partition}

module _ (api : BuilderApi) where
  open api use {
    Builder, new_builder, reset, create_string, create_byte_vector, start_vector, prepend_uoffset,
    end_vector, start_object, end_object, prepend_uoffset_slot, prepend_uint32_slot,
    prepend_byte_slot, prepend_float32_slot, builder_offset, finish_size_prefixed, finished_bytes,
  }

  abbrev finished_message : ℕ × Builder → Bytes
  finished_message (root, b) = finished_bytes (finish_size_prefixed root b)

  -- The request of `findDomainDataNode` and of `downloadDomainData`: the id of the domain alone.
  unfoldable pub request_message : String → Bytes
  request_message domain_id =
      let (id, b) = create_string domain_id new_builder in
      finished_message (end_object (prepend_uoffset_slot 0 id 0 (start_object 3 b)))

  -- One message of `sendDomainData`, and the builder behind it.
  unfoldable pub upload_message : String → String → Bytes → Builder → Bytes × Builder
  unfolding add_partition
  upload_message domain_id name content b =
      let (id, b1) = create_string domain_id b in
      let (data_name, b2) = create_string name b1 in
      let (vector, b3) = create_byte_vector content b2 in
      let (partition, b4) = add_partition api vector b3 in
      let b5 = prepend_uoffset_slot 2 id 0 (start_object 7 b4) in
      let b6 = prepend_uoffset_slot 3 data_name 0 b5 in
      let b7 = prepend_uint32_slot 0 (uoffset (builder_offset b6)) 0 b6 in
      let b8 = prepend_byte_slot 5 any_domain_data_partition 0 b7 in
      let (domain_data, b9) = end_object (prepend_uoffset_slot 6 partition 0 b8) in
      let b10 = finish_size_prefixed domain_data b9 in (finished_bytes b10, b10)

  -- The loop over the data nodes, and the loop back over the offsets of their texts.
  unfoldable pub create_strings : List PeerId → Builder → List ℕ × Builder
  create_strings [] b = ([], b)
  create_strings (p ∷ ps) b =
      let (o, b1) = create_string p b in let (os, b2) = create_strings ps b1 in (o ∷ os, b2)

  unfoldable pub prepend_backwards : List ℕ → Builder → Builder
  prepend_backwards [] b = b
  prepend_backwards (o ∷ os) b = prepend_uoffset o (prepend_backwards os b)

  -- The message of `createDomain`: the first data node writes, and all of them read.
  unfoldable pub domain_message : String → PeerId → List PeerId → Bytes
  unfolding create_strings prepend_backwards
  domain_message key first rest =
      let (id, b1) = create_string key new_builder in
      let (name, b2) = create_string "domain" b1 in
      let (writer, b3) = create_string first b2 in
      let (offsets, b4) = create_strings (first ∷ rest) b3 in
      let n = length (first ∷ rest) in
      let (readers, b5) = end_vector n (prepend_backwards offsets (start_vector 4 n 4 b4)) in
      let b6 = prepend_uoffset_slot 0 id 0 (start_object 6 b5) in
      let b7 = prepend_uoffset_slot 2 writer 0 (prepend_uoffset_slot 1 name 0 b6) in
      finished_message (end_object (prepend_uoffset_slot 3 readers 0 b7))

  -- The message of `createPortal`. `five` is the bits of the float 5.
  unfoldable pub portal_message : ℕ → String → Bytes
  portal_message five id =
      let (short_id, b1) = create_string id new_builder in
      let (name, b2) = create_string "portal" b1 in
      let b3 = prepend_uoffset_slot 0 name 0 (start_object 3 b2) in
      let b4 = prepend_float32_slot 1 five 0 (prepend_uoffset_slot 2 short_id 0 b3) in
      finished_message (end_object b4)

  -- What the application keeps, and what it wrote to which node.
  pub record Lists : Type 0 where
    pub domain_list : Dict String Table
    pub portal_list : Dict String Table
    pub sent : List (PeerId × Bytes)

  abbrev pub write_to :
      (PeerId → Bytes → Result (Unit {0})) → PeerId → Bytes → Exec Lists (Unit {0})
  write_to write p bytes l = elim (write p bytes) [
    | ok _ ↦ (ok tt, record l { sent = l.sent ++ (p, bytes) ∷ [] })
    | err e ↦ (err e, l)
    | crash m ↦ (crash m, l)
  ]

  -- The error of `NewStream` in `createDomain` is not looked at, so that the write to no stream
  -- panics.
  abbrev unchecked : Result (Unit {0}) → Result (Unit {0})
  unchecked (err _) = crash "nil stream"
  unchecked other = other

  module _ (fb : FlatBuffers) (write : PeerId → Bytes → Result (Unit {0})) where
    -- `createDomain`, once data nodes were found, with the id of the generated key.
    unfoldable pub create_domain :
        (PeerId → Result (Unit {0}))
        → PeerId
        → Result String
        → PeerId
        → List PeerId
        → Exec Lists (Unit {0})
    unfolding domain_message
    create_domain open_stream service generated first rest = do
      key ← lift generated
      domain ← lift (get_size_prefixed_root_as fb (domain_message key first rest) 0)
      λ l. (ok tt, record l { domain_list = Dict.insert key domain l.domain_list })
      lift (unchecked (open_stream service))
      write_to write service (domain_message key first rest)

    -- `createPortal`, with the new id.
    unfoldable pub create_portal :
        (PeerId → Result (Unit {0})) → ℕ → PeerId → String → Exec Lists (Unit {0})
    unfolding portal_message
    create_portal open_stream five service id = do
      lift (open_stream service)
      write_to write service (portal_message five id)
      portal ← lift (get_size_prefixed_root_as fb (portal_message five id) 0)
      λ l. (ok tt, record l { portal_list = Dict.insert id portal l.portal_list })

    -- The hundred messages to one node, with the random names and contents of each. They share one
    -- builder, which is reset behind each.
    unfoldable pub send_rounds :
        ℕ → ℕ → PeerId → String → (ℕ → String × Bytes) → Builder → Exec Lists (Unit {0})
    unfolding upload_message
    send_rounds zero i p domain_id random b = pure tt
    send_rounds (suc left) i p domain_id random b =
        let (bytes, b1) = upload_message domain_id (random i).0 (random i).1 b in
        write_to write p bytes >> send_rounds left (suc i) p domain_id random (reset b1)

    -- `sendDomainData`
    unfoldable pub send_domain_data :
        (PeerId → Result (Unit {0}))
        → String
        → List OutputInfo
        → (PeerId → ℕ → String × Bytes)
        → Exec Lists (Unit {0})
    unfolding send_rounds
    send_domain_data open_stream domain_id [] random = pure tt
    send_domain_data open_stream domain_id (output ∷ outputs) random = do
      lift (open_stream output.id)
      send_rounds 100 0 output.id domain_id (random output.id) new_builder
      send_domain_data open_stream domain_id outputs random
