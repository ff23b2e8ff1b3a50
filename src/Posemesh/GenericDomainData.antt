-- ===== src/Posemesh/GenericDomainData.antt =====
-- Libposemesh/GenericDomainData.go: domain data of a named type.
use libp2p_experiment.Base.{ℕ, ◌+◌, if◌then◌else◌, ◌==◌, nat_eq}
use libp2p_experiment.Os.{Bytes}
use libp2p_experiment.FlatBuffers.{FlatBuffers, Table, uoffset}
use libp2p_experiment.Posemesh.{bytes_field}
use libp2p_experiment.Posemesh.Domain.{elements}

module _ (fb : FlatBuffers) where
  unfoldable pub name : Table → Bytes
  unfolding bytes_field
  name = bytes_field fb 4

  unfoldable pub data_type : Table → Bytes
  unfolding bytes_field
  data_type = bytes_field fb 6

  unfoldable pub data_length : Table → ℕ
  unfolding elements
  data_length = elements fb 8

  -- `byte(Data(j))`
  unfoldable pub get_data : Table → ℕ → ℕ
  get_data t j =
      let o = fb.offset t 8 in
      if o == 0 then 0 else fb.get_int8_byte t (uoffset (fb.vector t o + uoffset j))
