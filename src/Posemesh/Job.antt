-- ===== src/Posemesh/Job.antt =====
-- Libposemesh/Job.go and Peer.go: a job with its peers, whose steps are jobs again.
use libp2p_experiment.Base.{ℕ, ◌+◌, ◌*◌, Option, none, some, if◌then◌else◌, ◌==◌, nat_eq}
use libp2p_experiment.Os.{Bytes}
use libp2p_experiment.FlatBuffers.{FlatBuffers, Table, uoffset}
use libp2p_experiment.Posemesh.{bytes_field}
use libp2p_experiment.Posemesh.Domain.{elements}

module _ (fb : FlatBuffers) where
  -- A table in a slot, in the same buffer.
  unfoldable pub table_field : ℕ → Table → Option Table
  table_field slot t =
      let o = fb.offset t slot in
      if o == 0 then none else some (record t { pos = fb.indirect t (uoffset (o + t.pos)) })

  -- An element of a vector of tables in a slot.
  unfoldable pub table_element : ℕ → Table → ℕ → Option Table
  table_element slot t j =
      let o = fb.offset t slot in
      if o == 0
      then none
      else some
          (record t { pos = fb.indirect t (uoffset (fb.vector t o + uoffset (uoffset j * 4))) })

module _ (fb : FlatBuffers) where
  unfoldable pub id : Table → Bytes
  unfolding bytes_field
  id = bytes_field fb 4

  unfoldable pub name : Table → Bytes
  unfolding bytes_field
  name = bytes_field fb 6

  unfoldable pub input : Table → Option Table
  unfolding table_field
  input = table_field fb 8

  unfoldable pub output : Table → ℕ → Option Table
  unfolding table_element
  output = table_element fb 10

  unfoldable pub output_length : Table → ℕ
  unfolding elements
  output_length = elements fb 10

  unfoldable pub steps : Table → ℕ → Option Table
  unfolding table_element
  steps = table_element fb 12

  unfoldable pub steps_length : Table → ℕ
  unfolding elements
  steps_length = elements fb 12

  unfoldable pub peer_id : Table → Bytes
  unfolding bytes_field
  peer_id = bytes_field fb 4

  unfoldable pub peer_addr : Table → Bytes
  unfolding bytes_field
  peer_addr = bytes_field fb 6

  unfoldable pub peer_handler : Table → Bytes
  unfolding bytes_field
  peer_handler = bytes_field fb 8
