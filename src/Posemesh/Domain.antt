-- ===== src/Posemesh/Domain.antt =====
-- Libposemesh/Domain.go: a domain with its writer and its readers.
use libp2p_experiment.Base.{ℕ, ◌+◌, ◌*◌, [], if◌then◌else◌, ◌==◌, nat_eq}
use libp2p_experiment.Os.{Bytes}
use libp2p_experiment.FlatBuffers.{FlatBuffers, Table, uoffset}
use libp2p_experiment.Posemesh.{bytes_field}

module _ (fb : FlatBuffers) where
  unfoldable pub id : Table → Bytes
  unfolding bytes_field
  id = bytes_field fb 4

  unfoldable pub name : Table → Bytes
  unfolding bytes_field
  name = bytes_field fb 6

  unfoldable pub writer : Table → Bytes
  unfolding bytes_field
  writer = bytes_field fb 8

  -- `Readers(j)` and `Nodes(j)`: a vector of offsets of four bytes each.
  unfoldable pub element : ℕ → Table → ℕ → Bytes
  element slot t j =
      let o = fb.offset t slot in
      if o == 0 then [] else fb.byte_vector t (uoffset (fb.vector t o + uoffset (j * 4)))

  unfoldable pub elements : ℕ → Table → ℕ
  elements slot t = let o = fb.offset t slot in if o == 0 then 0 else fb.vector_len t o

  unfoldable pub readers : Table → ℕ → Bytes
  unfolding element
  readers = element 10

  unfoldable pub readers_length : Table → ℕ
  unfolding elements
  readers_length = elements 10

  unfoldable pub nodes : Table → ℕ → Bytes
  unfolding element
  nodes = element 12

  unfoldable pub nodes_length : Table → ℕ
  unfolding elements
  nodes_length = elements 12

  unfoldable pub cluster_secret : Table → Bytes
  unfolding bytes_field
  cluster_secret = bytes_field fb 14
