-- ===== src/DataNode/Message/Fields.antt =====
-- The message of a merged partition, one builder call after the other, and what it holds.
use libp2p_experiment.Base.{
  ℕ, ◌≡◌, ◌≢◌, ap, ◌∙◌, String, none, some, arith, if◌then◌else◌, ◌==◌, nat_eq,
}
use libp2p_experiment.Os.{Bytes}
use libp2p_experiment.FlatBuffers.{FlatBuffers, BuilderApi, uoffset}
use libp2p_experiment.FlatBuffers.Built.{Built, at, byte}
use libp2p_experiment.Posemesh.DomainData.{any_domain_data_partition}

module _ (fb : FlatBuffers) (api : BuilderApi) (B : Built fb api) (domain_id name : Bytes)
    (ver : String) (elements : Bytes) where
  open api use {
    Builder, new_builder, create_string, create_byte_string, create_byte_vector, start_object,
    end_object, prepend_uoffset_slot, prepend_uint32_slot, prepend_byte_slot, builder_offset,
  }

  abbrev with_id : Builder
  with_id = (create_byte_string domain_id new_builder).1

  abbrev pub id_offset : ℕ
  id_offset = (create_byte_string domain_id new_builder).0

  abbrev with_name : Builder
  with_name = (create_byte_string name with_id).1

  abbrev pub name_offset : ℕ
  name_offset = (create_byte_string name with_id).0

  abbrev with_version : Builder
  with_version = (create_string ver with_name).1

  abbrev pub version_offset : ℕ
  version_offset = (create_string ver with_name).0

  abbrev with_elements : Builder
  with_elements = (create_byte_vector elements with_version).1

  abbrev pub elements_offset : ℕ
  elements_offset = (create_byte_vector elements with_version).0

  -- The object of the partition, before and after its end.
  abbrev pub partition_open : Builder
  partition_open = prepend_uoffset_slot 0 elements_offset 0 (start_object 1 with_elements)

  abbrev with_partition : Builder
  with_partition = (end_object partition_open).1

  abbrev pub partition_offset : ℕ
  partition_offset = (end_object partition_open).0

  -- The object of the message, one field after the other.
  abbrev slot_4 : Builder
  slot_4 = prepend_uoffset_slot 4 version_offset 0 (start_object 7 with_partition)

  abbrev slot_2 : Builder
  slot_2 = prepend_uoffset_slot 2 id_offset 0 slot_4

  abbrev slot_3 : Builder
  slot_3 = prepend_uoffset_slot 3 name_offset 0 slot_2

  abbrev slot_0 : Builder
  slot_0 = prepend_uint32_slot 0 (uoffset (builder_offset slot_3)) 0 slot_3

  abbrev slot_5 : Builder
  slot_5 = prepend_byte_slot 5 any_domain_data_partition 0 slot_0

  abbrev pub slot_6 : Builder
  slot_6 = prepend_uoffset_slot 6 partition_offset 0 slot_5

  abbrev pub ended : Builder
  ended = (end_object slot_6).1

  partition_written : B.written partition_open ≡ B.written with_elements
  partition_written =
      B.written-offset 0 elements_offset (start_object 1 with_elements)
      ∙ B.written-start 1 with_elements

  message_written : B.written slot_6 ≡ B.written with_partition
  message_written =
      B.written-offset 6 partition_offset slot_5
      ∙ B.written-byte 5 any_domain_data_partition slot_0
      ∙ B.written-uint32 0 (uoffset (builder_offset slot_3)) slot_3
      ∙ B.written-offset 3 name_offset slot_2
      ∙ B.written-offset 2 id_offset slot_4
      ∙ B.written-offset 4 version_offset (start_object 7 with_partition)
      ∙ B.written-start 7 with_partition

  held :
      (o : ℕ) (s : Bytes)
      → (B.written with_elements).strings o ≡ some s
      → (B.written ended).strings o ≡ some s
  held o s h = B.strings-end o s slot_6 (
      ap (λ w. w.strings o) message_written
      ∙ B.strings-end o s partition_open (ap (λ w. w.strings o) partition_written ∙ h))

  pub id_held : (B.written ended).strings id_offset ≡ some domain_id
  id_held = held id_offset domain_id (
      B.byte_vectors.created_keeps elements domain_id id_offset with_version (
        B.texts.created_keeps ver domain_id id_offset with_name (
          B.byte_strings.created_keeps name domain_id id_offset with_id
            (B.byte_strings.created domain_id new_builder))))

  pub name_held : (B.written ended).strings name_offset ≡ some name
  name_held = held name_offset name (
      B.byte_vectors.created_keeps elements name name_offset with_version (
        B.texts.created_keeps ver name name_offset with_name (B.byte_strings.created name with_id)))

  pub version_held : (B.written ended).strings version_offset ≡ some (B.utf8 ver)
  version_held = held version_offset (B.utf8 ver) (
      B.byte_vectors.created_keeps elements (B.utf8 ver) version_offset with_version
        (B.texts.created ver with_name))

  pub elements_held : (B.written ended).strings elements_offset ≡ some elements
  elements_held = held elements_offset elements (B.byte_vectors.created elements with_version)

  pub partition_held : (B.written ended).objects partition_offset ≡ some (B.fields partition_open)
  partition_held =
      B.objects-end partition_offset (B.fields partition_open) slot_6
        (ap (λ w. w.objects partition_offset) message_written ∙ B.ended partition_open)

  pub elements_field : B.fields partition_open 0 ≡ some (at elements_offset)
  unfolding nat_eq
  elements_field =
      B.fields-offset 0 elements_offset 0 (start_object 1 with_elements)
        (B.byte_vectors.created_not_zero elements with_version)

  pub data_field : B.fields slot_6 6 ≡ some (at partition_offset)
  unfolding nat_eq
  data_field = B.fields-offset 6 partition_offset 6 slot_5 (B.ended_not_zero partition_open)

  -- The fields below the partition.
  field_below :
      (j : ℕ)
      → ◌≢◌ j 6
      → B.fields slot_6 j
        ≡ (if j == 5 then some (byte any_domain_data_partition) else B.fields slot_0 j)
  field_below j h = ground (
    arith,
    h,
    B.fields-offset 6 partition_offset j slot_5 (B.ended_not_zero partition_open),
    B.fields-byte 5 any_domain_data_partition j slot_0,
  )

  text_field :
      (j : ℕ)
      → ◌≢◌ j 0
      → B.fields slot_0 j ≡ (
          if j == 3
          then some (at name_offset)
          else if j == 2
          then some (at id_offset)
          else if j == 4
          then some (at version_offset)
          else none)
  text_field j h = ground (
    arith,
    h,
    B.fields-uint32 0 (uoffset (builder_offset slot_3)) j slot_3,
    B.fields-offset 3 name_offset j slot_2 (B.byte_strings.created_not_zero name with_id),
    B.fields-offset 2 id_offset j slot_4 (B.byte_strings.created_not_zero domain_id new_builder),
    B.fields-offset 4 version_offset j (start_object 7 with_partition)
        (B.texts.created_not_zero ver with_name),
    B.fields-start 7 j with_partition,
  )

  pub type_field : B.fields slot_6 5 ≡ some (byte any_domain_data_partition)
  type_field = ground (arith, field_below 5 (omega arith))

  pub name_field : B.fields slot_6 3 ≡ some (at name_offset)
  name_field = ground (arith, field_below 3 (omega arith), text_field 3 (omega arith))

  pub id_field : B.fields slot_6 2 ≡ some (at id_offset)
  id_field = ground (arith, field_below 2 (omega arith), text_field 2 (omega arith))

  pub version_field : B.fields slot_6 4 ≡ some (at version_offset)
  version_field = ground (arith, field_below 4 (omega arith), text_field 4 (omega arith))
