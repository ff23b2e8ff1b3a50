-- ===== src/Posemesh/DomainServer.antt =====
-- Libposemesh/DomainServer.go: a server with its limits and the types of data that it takes.
use libp2p_experiment.Base.{ℕ, ◌+◌, Option, none, some, if◌then◌else◌, ◌==◌, nat_eq}
use libp2p_experiment.Os.{Bytes}
use libp2p_experiment.FlatBuffers.{FlatBuffers, Table, uoffset}
use libp2p_experiment.Posemesh.{bytes_field}
use libp2p_experiment.Posemesh.Domain.{element, elements}

module _ (fb : FlatBuffers) where
  -- The struct in a slot, which stands in the table itself.
  unfoldable pub info : Table → Option Table
  info t =
      let o = fb.offset t 4 in
      if o == 0 then none else some (record t { pos = uoffset (o + t.pos) })

  unfoldable pub data_size_limit : Table → Bytes
  unfolding bytes_field
  data_size_limit = bytes_field fb 6

  unfoldable pub request_size_limit : Table → Bytes
  unfolding bytes_field
  request_size_limit = bytes_field fb 8

  unfoldable pub data_type_blacklist : Table → ℕ → Bytes
  unfolding element
  data_type_blacklist = element fb 10

  unfoldable pub data_type_blacklist_length : Table → ℕ
  unfolding elements
  data_type_blacklist_length = elements fb 10

  unfoldable pub data_type_handlers : Table → ℕ → Bytes
  unfolding element
  data_type_handlers = element fb 12

  unfoldable pub data_type_handlers_length : Table → ℕ
  unfolding elements
  data_type_handlers_length = elements fb 12
