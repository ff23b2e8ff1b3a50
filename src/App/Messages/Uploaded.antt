-- ===== src/App/Messages/Uploaded.antt =====
-- The data that the application uploads, as the data node receives it.
use mathlib.Core.Path.{subst}
use libp2p_experiment.Base.{
  ℕ, ◌<◌, ◌^◌, ◌≡◌, ap, ◌∙◌, String, none, some, [], ◌∷◌, ◌++◌, length, get_elem?, arith, nat_eq,
}
use libp2p_experiment.Base.Effects.{ok}
use libp2p_experiment.Os.{Bytes}
use libp2p_experiment.FlatBuffers.{FlatBuffers, BuilderApi, SizePrefix, Table, uoffset}
use libp2p_experiment.FlatBuffers.Built.{Built, at, byte, uint32, Reads, ReadsBytes, is_one}
use libp2p_experiment.FlatBuffers.Framed.{Framed}
use libp2p_experiment.FlatBuffers.Slots.{Slots, Fits, value, filled, fields-filled, written-filled}
use libp2p_experiment.Posemesh.{get_root_as}
use libp2p_experiment.Posemesh.DomainData
use libp2p_experiment.Posemesh.DomainData.{any_domain_data_partition}
use libp2p_experiment.Posemesh.Partition.{get_data, data_length}
use libp2p_experiment.Posemesh.Reading.{ended, message-ReadsBare, bytes_field-Contents}
use libp2p_experiment.DataNode.{get_partition}
use libp2p_experiment.DataNode.Message.Reread.{partition_found}
use libp2p_experiment.App.Messages.{upload_message}

-- A partition whose bytes are `content`.
pub record HoldsBits (fb : FlatBuffers) (q : Table) (content : Bytes) : Type 0 where
  pub all : data_length fb q ≡ length content
  pub each : (j : ℕ) → j < length content → get_data fb q j ≡ is_one (get_elem? content j)

pub ReadsBytes-HoldsBits :
    (fb : FlatBuffers) (q : Table) (content : Bytes)
    → length content < 2 ^ 24
    → ReadsBytes fb q (fb.offset q 4) content
    → HoldsBits fb q content
unfolding data_length get_data
ReadsBytes-HoldsBits fb q content h r = record {
  all = ground (arith, r.present, r.content_length);
  each = λ j l. ground (arith, r.present, r.element j l h);
}

module _ (fb : FlatBuffers) (api : BuilderApi) (B : Built fb api) (domain_id name : String)
    (content : Bytes) where
  open api use {
    Builder, new_builder, create_string, create_byte_vector, start_object, end_object,
    builder_offset,
  }

  abbrev with_id : Builder
  with_id = (create_string domain_id new_builder).1

  abbrev id_offset : ℕ
  id_offset = (create_string domain_id new_builder).0

  abbrev with_name : Builder
  with_name = (create_string name with_id).1

  abbrev name_offset : ℕ
  name_offset = (create_string name with_id).0

  abbrev with_content : Builder
  with_content = (create_byte_vector content with_name).1

  abbrev content_offset : ℕ
  content_offset = (create_byte_vector content with_name).0

  -- The object of the partition, and then that of the message.
  abbrev inner_slots : Slots
  inner_slots = (0, at content_offset) ∷ []

  abbrev inner : Builder
  inner = filled api inner_slots (start_object 1 with_content)

  abbrev with_inner : Builder
  with_inner = (end_object inner).1

  abbrev inner_offset : ℕ
  inner_offset = (end_object inner).0

  abbrev text_slots : Slots
  text_slots = (3, at name_offset) ∷ (2, at id_offset) ∷ []

  abbrev with_texts : Builder
  with_texts = filled api text_slots (start_object 7 with_inner)

  abbrev slots : Slots
  slots =
      (6, at inner_offset)
      ∷ (5, byte any_domain_data_partition)
      ∷ (0, uint32 (uoffset (builder_offset with_texts)))
      ∷ text_slots

  abbrev outer : Builder
  outer = filled api slots (start_object 7 with_inner)

  inner_fits : Fits inner_slots
  inner_fits = (B.byte_vectors.created_not_zero content with_name, tt)

  outer_fits : Fits slots
  outer_fits = (
    B.ended_not_zero inner,
    (B.texts.created_not_zero name with_id, (B.texts.created_not_zero domain_id new_builder, tt)),
  )

  content_field : B.fields inner 0 ≡ some (at content_offset)
  content_field = ground (
    arith,
    fields-filled fb api B inner_slots (start_object 1 with_content) 0 inner_fits,
    inner_fits.0,
  )

  outer_field : (j : ℕ) → B.fields outer j ≡ value slots j none
  outer_field j =
      fields-filled fb api B slots (start_object 7 with_inner) j outer_fits
      ∙ ap (value slots j) (B.fields-start 7 j with_inner)

  id_field : B.fields outer 2 ≡ some (at id_offset)
  id_field = ground (arith, outer_field 2, outer_fits.0, outer_fits.1.0, outer_fits.1.1.0)

  name_field : B.fields outer 3 ≡ some (at name_offset)
  name_field = ground (arith, outer_field 3, outer_fits.0, outer_fits.1.0, outer_fits.1.1.0)

  type_field : B.fields outer 5 ≡ some (byte any_domain_data_partition)
  type_field = ground (arith, outer_field 5, outer_fits.0, outer_fits.1.0, outer_fits.1.1.0)

  data_field : B.fields outer 6 ≡ some (at inner_offset)
  data_field = ground (arith, outer_field 6, outer_fits.0, outer_fits.1.0, outer_fits.1.1.0)

  held :
      (o : ℕ) (s : Bytes)
      → (B.written with_content).strings o ≡ some s
      → (B.written (ended fb api B outer)).strings o ≡ some s
  held o s h = B.strings-end o s outer (
      ap (λ w. w.strings o)
        (written-filled fb api B slots (start_object 7 with_inner) ∙ B.written-start 7 with_inner)
      ∙ B.strings-end o s inner (
          ap (λ w. w.strings o)
            (written-filled fb api B inner_slots (start_object 1 with_content)
              ∙ B.written-start 1 with_content)
          ∙ h))

  id_held : (B.written (ended fb api B outer)).strings id_offset ≡ some (B.utf8 domain_id)
  id_held = held id_offset (B.utf8 domain_id) (
      B.byte_vectors.created_keeps content (B.utf8 domain_id) id_offset with_name (
        B.texts.created_keeps name (B.utf8 domain_id) id_offset with_id
          (B.texts.created domain_id new_builder)))

  name_held : (B.written (ended fb api B outer)).strings name_offset ≡ some (B.utf8 name)
  name_held = held name_offset (B.utf8 name) (
      B.byte_vectors.created_keeps content (B.utf8 name) name_offset with_name
        (B.texts.created name with_id))

  content_held : (B.written (ended fb api B outer)).strings content_offset ≡ some content
  content_held = held content_offset content (B.byte_vectors.created content with_name)

  inner_held : (B.written (ended fb api B outer)).objects inner_offset ≡ some (B.fields inner)
  inner_held = B.objects-end inner_offset (B.fields inner) outer (
      ap (λ w. w.objects inner_offset)
        (written-filled fb api B slots (start_object 7 with_inner) ∙ B.written-start 7 with_inner)
      ∙ B.ended inner)

  -- What the data node makes of the message.
  pub record Received (P : SizePrefix fb) (buf : Bytes) (d q : Table) : Type 0 where
    pub with_size :
        (upload_message api domain_id name content new_builder).0 ≡ P.prefix (length buf) ++ buf
    pub readable : get_root_as fb buf 0 ≡ ok d
    pub same_domain : DomainData.domain_id fb d ≡ B.utf8 domain_id
    pub same_name : DomainData.name fb d ≡ B.utf8 name
    pub partition : get_partition fb d ≡ ok q
    pub same_content : HoldsBits fb q content

  -- What the application uploads with a new builder: the handler of uploads reads the message behind its size as the
  -- domain data of the named domain under the given name, a partition with the bits of the content,
  -- where the content has less than 2 ^ 24 bytes. The builder and the tables of FlatBuffers are
  -- lawful.
  pub upload_message-Received :
      (P : SizePrefix fb)
      → Framed fb api B P
      → length content < 2 ^ 24
      → (buf : Bytes) × ((d : Table) × ((q : Table) × Received P buf d q))
  unfolding upload_message DomainData.domain_id DomainData.name
  upload_message-Received P F h =
      let (buf, (d, r)) = message-ReadsBare fb api B outer P F in
      let w = B.written (ended fb api B outer) in
      let within =
        r.contents.object 6 inner_offset (omega arith) data_field (B.fields inner) inner_held in
      let typed = subst (Reads fb w d 5) type_field (r.contents.field 5 (omega arith)) in
      let bits =
        subst (Reads fb w (fb.union d (fb.offset d 16)) 0) content_field (within.1 0 (omega arith))
          content content_held in
      (
        buf,
        (
          d,
          (
            fb.union d (fb.offset d 16),
            record {
              with_size = r.with_size;
              readable = r.readable;
              same_domain =
                  bytes_field-Contents fb w (B.fields outer) d r.contents 2 id_offset
                    (B.utf8 domain_id) (omega arith) id_field id_held;
              same_name =
                  bytes_field-Contents fb w (B.fields outer) d r.contents 3 name_offset
                    (B.utf8 name) (omega arith) name_field name_held;
              partition = partition_found fb d within.0 typed.0 typed.1;
              same_content = ReadsBytes-HoldsBits fb (fb.union d (fb.offset d 16)) content h bits;
            },
          ),
        ),
      )
