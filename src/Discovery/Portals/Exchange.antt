-- ===== src/Discovery/Portals/Exchange.antt =====
-- A portal on its way from one discovery node to another.
use mathlib.Core.Path.{subst}
use libp2p_experiment.Base.{
  ℕ, ◌+◌, ◌≡◌, ◌≢◌, refl, ap, sym, ◌∙◌, Option, none, some, arith, string_eq, Bool-cases, inl, inr,
  if◌then◌else◌, ◌==◌, nat_eq,
}
use libp2p_experiment.Base.Dict
use libp2p_experiment.Base.Effects.{ok}
use libp2p_experiment.Os.{Bytes, FilePath, Fs}
use libp2p_experiment.FlatBuffers.{FlatBuffers, BuilderApi, Table, uoffset}
use libp2p_experiment.FlatBuffers.Built.{Written, Built, Field, at, float, is_zero, Reads}
use libp2p_experiment.Posemesh.{get_size_prefixed_root_as}
use libp2p_experiment.Posemesh.Portal
use libp2p_experiment.Posemesh.Reading.{root_found, bytes_field-at}
use libp2p_experiment.Node.{PeerId}
use libp2p_experiment.Discovery.{Directory}
use libp2p_experiment.Discovery.Portals.{portal_message, receive_portal}
use libp2p_experiment.Discovery.Portals.FirstWins.{receive_portal_new}

module _ (fb : FlatBuffers) where
  -- Two portals with the same contents, where -0.0 is the same size as 0.0.
  pub record SamePortal (p q : Table) : Type 0 where
    pub same_id : Portal.short_id fb q ≡ Portal.short_id fb p
    pub same_name : Portal.default_name fb q ≡ Portal.default_name fb p
    pub same_size : Portal.size fb q ≡ (if is_zero (Portal.size fb p) then 0 else Portal.size fb p)

  pub size-float :
      (w : Written) (t : Table) (x : ℕ) (f : Option Field)
      → Reads fb w t 1 f
      → f ≡ (if is_zero x then none else some (float x))
      → Portal.size fb t ≡ (if is_zero x then 0 else x)
  unfolding Portal.size nat_eq
  size-float w t x f reads e = elim (Bool-cases (is_zero x)) [
    | inl zero_size ↦
        let none_set : f ≡ none = e ∙ ap (λ b. if b then none else some (float x)) zero_size in
        let absent : fb.offset t 6 ≡ 0 = subst (Reads fb w t 1) none_set reads in
        rw zero_size (rw absent refl)
    | inr other_size ↦
        let set : f ≡ some (float x) =
          e ∙ ap (λ b. if b then none else some (float x)) other_size in
        let (there, same) = subst (Reads fb w t 1) set reads in
        rw other_size (ground (arith, there, same))
  ]

-- The message of `publishPortal`, one builder call after the other.
module _ (fb : FlatBuffers) (api : BuilderApi) (B : Built fb api) (portal : Table) where
  open api use {
    Builder, new_builder, create_byte_string, start_object, end_object, prepend_uoffset_slot,
    prepend_float32_slot,
  }

  abbrev name : Bytes
  name = Portal.default_name fb portal

  abbrev id : Bytes
  id = Portal.short_id fb portal

  abbrev size : ℕ
  size = Portal.size fb portal

  abbrev with_name : Builder
  with_name = (create_byte_string name new_builder).1

  abbrev with_texts : Builder
  with_texts = (create_byte_string id with_name).1

  abbrev name_offset : ℕ
  name_offset = (create_byte_string name new_builder).0

  abbrev id_offset : ℕ
  id_offset = (create_byte_string id with_name).0

  abbrev with_id : Builder
  with_id = prepend_uoffset_slot 2 id_offset 0 (start_object 3 with_texts)

  abbrev with_size : Builder
  with_size = prepend_float32_slot 1 size 0 with_id

  abbrev with_fields : Builder
  with_fields = prepend_uoffset_slot 0 name_offset 0 with_size

  written_kept : B.written with_fields ≡ B.written with_texts
  written_kept =
      B.written-offset 0 name_offset with_size
      ∙ B.written-float 1 size with_id
      ∙ B.written-offset 2 id_offset (start_object 3 with_texts)
      ∙ B.written-start 3 with_texts

  held :
      (o : ℕ) (s : Bytes)
      → (B.written with_texts).strings o ≡ some s
      → (B.written (end_object with_fields).1).strings o ≡ some s
  held o s h = B.strings-end o s with_fields (ap (λ w. w.strings o) written_kept ∙ h)

  id_held : (B.written (end_object with_fields).1).strings id_offset ≡ some id
  id_held = held id_offset id (B.byte_strings.created id with_name)

  name_held : (B.written (end_object with_fields).1).strings name_offset ≡ some name
  name_held = held name_offset name (
      B.byte_strings.created_keeps id name name_offset with_name
        (B.byte_strings.created name new_builder))

  field_of :
      (j : ℕ)
      → B.fields with_fields j ≡ (
          if j == 0
          then some (at name_offset)
          else if is_zero size
          then (if j == 2 then some (at id_offset) else none)
          else if j == 1
          then some (float size)
          else if j == 2
          then some (at id_offset)
          else none)
  field_of j = ground (
    arith,
    B.fields-offset 0 name_offset j with_size (B.byte_strings.created_not_zero name new_builder),
    B.fields-float 1 size j with_id,
    B.fields-offset 2 id_offset j (start_object 3 with_texts)
        (B.byte_strings.created_not_zero id with_name),
    B.fields-start 3 j with_texts,
  )

  name_field : B.fields with_fields 0 ≡ some (at name_offset)
  unfolding nat_eq
  name_field = field_of 0

  id_field : B.fields with_fields 2 ≡ some (at id_offset)
  id_field = ground (arith, field_of 2)

  size_field : B.fields with_fields 1 ≡ (if is_zero size then none else some (float size))
  unfolding nat_eq
  size_field = field_of 1

  -- What the message is read as.
  pub record Delivered (t : Table) : Type 0 where
    pub readable : get_size_prefixed_root_as fb (portal_message fb api portal) 0 ≡ ok t
    pub same : SamePortal fb portal t

  pub portal_message-Delivered : (t : Table) × Delivered t
  unfolding portal_message Portal.short_id Portal.default_name
  portal_message-Delivered =
      let b = (end_object with_fields).1 in
      let p = (end_object with_fields).0 in
      let bytes = api.finished_bytes (api.finish_size_prefixed p b) in
      let (fits, (n, (root, reads))) =
        B.finished b p (B.fields with_fields) (B.ended with_fields) in
      let t : Table = record { bytes = bytes; pos = uoffset (n + fb.size_uint32) } in
      (
        t,
        record {
          readable = root_found fb bytes n fits root;
          same = record {
            same_id =
                bytes_field-at fb (B.written b) t 2 id_offset id (B.fields with_fields 2)
                  (reads 2 (omega arith)).0 id_field id_held;
            same_name =
                bytes_field-at fb (B.written b) t 0 name_offset name (B.fields with_fields 0)
                  (reads 0 (omega arith)).0 name_field name_held;
            same_size =
                size-float fb (B.written b) t size (B.fields with_fields 1)
                  (reads 1 (omega arith)).0 size_field;
          };
        },
      )

  -- A portal that a discovery node publishes comes to another that does not know its id: that node
  -- enters a portal under the id, with the id, the name and the size of the one published, where
  -- -0.0 is read as 0.0. The builder and the tables of FlatBuffers are lawful.
  pub receive_portal-portal_message :
      (self from : PeerId) (base : FilePath) (fs : Fs) (w : Directory)
      → from ≢ self
      → Dict.lookup (fb.text (Portal.short_id fb portal)) w.portal_list ≡ none
      → (t : Table) × ((Dict.lookup
              (fb.text (Portal.short_id fb portal))
              (receive_portal fb self base from
                (portal_message fb api portal)
                (fs, w)).1.1.portal_list
            ≡ some t)
          × SamePortal fb portal t)
  receive_portal-portal_message self from base fs w other unknown =
      let (t, d) = portal_message-Delivered in
      let q = ap fb.text d.same.same_id in
      let new =
        receive_portal_new fb base (portal_message fb api portal) self from fs w t other d.readable
          (ap (λ i. Dict.lookup i w.portal_list) q ∙ unknown) in
      (
        t,
        (
          ap
                (λ i.
                  Dict.lookup i
                    (receive_portal fb self base from (portal_message fb api portal)
                      (fs, w)).1.1.portal_list)
                (sym q)
              ∙ new,
          d.same,
        ),
      )
