-- ===== src/DataNode/Message.antt =====
-- example/data_node/main.go, `processPartition`: the builder calls that make the message of a merged
-- partition. The numbers are the slots of the generated Libposemesh/Partition.go and DomainData.go.
pub mod Fields
pub mod Reread
use libp2p_experiment.Base.{ℕ, String}
use libp2p_experiment.Os.{Bytes}
use libp2p_experiment.FlatBuffers.{BuilderApi, uoffset}
use libp2p_experiment.Posemesh.DomainData.{any_domain_data_partition}

module _ (api : BuilderApi) where
  open api use {
    Builder, new_builder, create_string, create_byte_string, create_byte_vector, start_object,
    end_object, prepend_uoffset_slot, prepend_uint32_slot, prepend_byte_slot, builder_offset,
    finish_size_prefixed, finished_bytes,
  }

  -- `PartitionStart`, `PartitionAddData`, `PartitionEnd`
  unfoldable pub add_partition : ℕ → Builder → ℕ × Builder
  add_partition content b = end_object (prepend_uoffset_slot 0 content 0 (start_object 1 b))

  -- `DomainDataStart` to `DomainDataEnd`
  unfoldable pub add_domain_data : ℕ → ℕ → ℕ → ℕ → Builder → ℕ × Builder
  add_domain_data version domain_id name partition b =
      let b1 = prepend_uoffset_slot 4 version 0 (start_object 7 b) in
      let b2 = prepend_uoffset_slot 3 name 0 (prepend_uoffset_slot 2 domain_id 0 b1) in
      let b3 = prepend_uint32_slot 0 (uoffset (builder_offset b2)) 0 b2 in
      end_object
        (prepend_uoffset_slot 6 partition 0 (prepend_byte_slot 5 any_domain_data_partition 0 b3))

  -- The message: the domain id, the name, the version and the elements, in the order of the calls.
  unfoldable pub merged_message : Bytes → Bytes → String → Bytes → Bytes
  unfolding add_partition add_domain_data
  merged_message domain_id name version elements =
      let (id_offset, b1) = create_byte_string domain_id new_builder in
      let (name_offset, b2) = create_byte_string name b1 in
      let (version_offset, b3) = create_string version b2 in
      let (elements_offset, b4) = create_byte_vector elements b3 in
      let (partition, b5) = add_partition elements_offset b4 in
      let (message, b6) = add_domain_data version_offset id_offset name_offset partition b5 in
      finished_bytes (finish_size_prefixed message b6)
