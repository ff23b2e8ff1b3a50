-- ===== src/App/Messages/Requested.antt =====
-- The request of the application, as the data node reads it.
use mathlib.Core.Path.{subst}
use libp2p_experiment.Base.{
  ℕ, ◌≡◌, ◌≢◌, ap, ◌∙◌, String, none, some, [], ◌∷◌, ◌++◌, length, arith, nat_eq, string_eq,
}
use libp2p_experiment.Base.Effects.{ok}
use libp2p_experiment.Os.{Bytes}
use libp2p_experiment.FlatBuffers.{FlatBuffers, BuilderApi, SizePrefix, Table}
use libp2p_experiment.FlatBuffers.Built.{Built, at, Reads}
use libp2p_experiment.FlatBuffers.Framed.{Framed}
use libp2p_experiment.FlatBuffers.Slots.{Slots, filled, fields-filled, written-filled}
use libp2p_experiment.Posemesh.{get_root_as}
use libp2p_experiment.Posemesh.Request
use libp2p_experiment.Posemesh.Reading.{
  ended, message-ReadsBare, bytes_field-Contents, bytes_field-absent,
}
use libp2p_experiment.App.Messages.{request_message}
use libp2p_experiment.DataNode.Download.{request_key}

key_of_nothing :
    (fb : FlatBuffers) (req : Table)
    → Request.name fb req ≡ []
    → fb.offset req 8 ≡ 0
    → fb.text [] ≡ ""
    → request_key fb req ≡ ".*_.*"
unfolding request_key Request.request_type nat_eq string_eq
key_of_nothing fb req no_name no_type empty = rw (no_name, no_type, empty)

module _ (fb : FlatBuffers) (api : BuilderApi) (B : Built fb api) (domain_id : String) where
  abbrev with_id : api.Builder
  with_id = (api.create_string domain_id api.new_builder).1

  abbrev id_offset : ℕ
  id_offset = (api.create_string domain_id api.new_builder).0

  abbrev slots : Slots
  slots = (0, at id_offset) ∷ []

  abbrev request : api.Builder
  request = filled api slots (api.start_object 3 with_id)

  id_field : B.fields request 0 ≡ some (at id_offset)
  id_field = ground (
    arith,
    fields-filled fb api B slots (api.start_object 3 with_id) 0
        (B.texts.created_not_zero domain_id api.new_builder, tt),
    B.texts.created_not_zero domain_id api.new_builder,
  )

  other_field : (k : ℕ) → ◌≢◌ k 0 → B.fields request k ≡ none
  other_field k h = ground (
    arith,
    h,
    fields-filled fb api B slots (api.start_object 3 with_id) k
        (B.texts.created_not_zero domain_id api.new_builder, tt),
    B.fields-start 3 k with_id,
  )

  id_held : (B.written (ended fb api B request)).strings id_offset ≡ some (B.utf8 domain_id)
  id_held = B.strings-end id_offset (B.utf8 domain_id) request (
      ap (λ w. w.strings id_offset)
        (written-filled fb api B slots (api.start_object 3 with_id) ∙ B.written-start 3 with_id)
      ∙ B.texts.created domain_id api.new_builder)

  -- What the data node makes of the message behind its size.
  pub record Understood (P : SizePrefix fb) (buf : Bytes) (req : Table) : Type 0 where
    pub with_size : request_message api domain_id ≡ P.prefix (length buf) ++ buf
    pub readable : get_root_as fb buf 0 ≡ ok req
    pub same_domain : Request.domain_id fb req ≡ B.utf8 domain_id
    pub for_all : request_key fb req ≡ ".*_.*"

  -- What the application asks a data node for: the node reads the id of the domain that the
  -- application named, and subscribes the stream to the data of every name and type, since the
  -- request has neither. The builder and the tables of FlatBuffers are lawful, and a text without
  -- bytes is empty.
  pub request_message-request_key :
      (P : SizePrefix fb)
      → Framed fb api B P
      → fb.text [] ≡ ""
      → (buf : Bytes) × ((req : Table) × Understood P buf req)
  unfolding request_message Request.domain_id Request.name
  request_message-request_key P F empty =
      let (buf, (req, r)) = message-ReadsBare fb api B request P F in
      let w = B.written (ended fb api B request) in
      let no_name =
        bytes_field-absent fb w (B.fields request) req r.contents 1 (omega arith)
          (other_field 1 (omega arith)) in
      let no_type =
        subst (Reads fb w req 2) (other_field 2 (omega arith)) (r.contents.field 2 (omega arith)) in
      (
        buf,
        (
          req,
          record {
            with_size = r.with_size;
            readable = r.readable;
            same_domain =
                bytes_field-Contents fb w (B.fields request) req r.contents 0 id_offset
                  (B.utf8 domain_id) (omega arith) id_field id_held;
            for_all = key_of_nothing fb req no_name no_type empty;
          },
        ),
      )
