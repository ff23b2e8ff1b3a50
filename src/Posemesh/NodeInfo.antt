-- ===== src/Posemesh/NodeInfo.antt =====
-- Libposemesh/NodeInfo.go: a struct, whose fields stand at fixed places behind its position, and
-- Libposemesh/BasicNode.go, a table with such a struct.
use libp2p_experiment.Base.{ℕ, ◌+◌, String, Option, none, some, if◌then◌else◌, ◌==◌, nat_eq}
use libp2p_experiment.FlatBuffers.{FlatBuffers, Table, uoffset}

module _ (fb : FlatBuffers) where
  unfoldable pub id : Table → ℕ
  id t = fb.get_byte t (uoffset (t.pos + 0))

  unfoldable pub name : Table → ℕ
  name t = fb.get_byte t (uoffset (t.pos + 1))

  unfoldable pub node_type : Table → ℕ
  node_type t = fb.get_byte t (uoffset (t.pos + 2))

  -- The three numbers as `%d` prints them
  unfoldable pub latency : Table → String
  latency t = fb.get_int64_text t (uoffset (t.pos + 8))

  unfoldable pub cpu : Table → String
  cpu t = fb.get_int32_text t (uoffset (t.pos + 16))

  unfoldable pub gpu : Table → String
  gpu t = fb.get_int32_text t (uoffset (t.pos + 20))

  unfoldable pub memory : Table → ℕ
  memory t = fb.get_byte t (uoffset (t.pos + 24))

  -- `BasicNode.Info`: the struct in the slot of the table.
  unfoldable pub basic_node_info : Table → Option Table
  basic_node_info t =
      let o = fb.offset t 4 in
      if o == 0 then none else some (record t { pos = uoffset (o + t.pos) })
