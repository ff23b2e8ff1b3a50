-- ===== src/Posemesh/Partition.antt =====
-- Libposemesh/Partition.go: a vector of Booleans.
use libp2p_experiment.Base.{ℕ, ◌+◌, Bool, false, if◌then◌else◌, ◌==◌, nat_eq}
use libp2p_experiment.FlatBuffers.{FlatBuffers, Table, uoffset}

module _ (fb : FlatBuffers) where
  -- `Data(j)`
  unfoldable pub get_data : Table → ℕ → Bool
  get_data t j =
      let o = fb.offset t 4 in
      if o == 0 then false else fb.get_bool t (uoffset (fb.vector t o + uoffset j))

  -- `DataLength()`
  unfoldable pub data_length : Table → ℕ
  data_length t = let o = fb.offset t 4 in if o == 0 then 0 else fb.vector_len t o

  -- `MutateData(j, n)`, with the table after it
  unfoldable pub mutate_data : Table → ℕ → Bool → Bool × Table
  mutate_data t j n =
      let o = fb.offset t 4 in
      if o == 0 then (false, t) else fb.mutate_bool t (uoffset (fb.vector t o + uoffset j)) n
