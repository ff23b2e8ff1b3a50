-- ===== src/Posemesh/Msg.antt =====
-- Libposemesh/Msg.go: a message with an id and a union of the requests and their answers.
use libp2p_experiment.Base.{ℕ, ◌+◌, Option, none, some, if◌then◌else◌, ◌==◌, nat_eq}
use libp2p_experiment.Os.{Bytes}
use libp2p_experiment.FlatBuffers.{FlatBuffers, Table, BuilderApi, uoffset}
use libp2p_experiment.Posemesh.{bytes_field}

module _ (fb : FlatBuffers) where
  unfoldable pub id : Table → Bytes
  unfolding bytes_field
  id = bytes_field fb 4

  unfoldable pub data_type : Table → ℕ
  data_type t = let o = fb.offset t 6 in if o == 0 then 0 else fb.get_byte t (uoffset (o + t.pos))

  -- `Data(obj)`: the table of the union member, if the field is there.
  unfoldable pub union_data : Table → Option Table
  union_data t = let o = fb.offset t 8 in if o == 0 then none else some (fb.union t o)

-- `MsgStart`, the three calls that add a field, and `MsgEnd`.
unfoldable pub build_msg : (api : BuilderApi) → ℕ → ℕ → ℕ → api.Builder → ℕ × api.Builder
build_msg api id type content b =
    let b1 = api.prepend_uoffset_slot 0 id 0 (api.start_object 3 b) in
    api.end_object (api.prepend_uoffset_slot 2 content 0 (api.prepend_byte_slot 1 type 0 b1))
