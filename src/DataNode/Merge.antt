-- ===== src/DataNode/Merge.antt =====
-- Merging is the pointwise disjunction of partitions of one length.
use mathlib.Core.Bool.{Bool}
use libp2p_experiment.Base.{
  ℕ, zero, suc, ◌+◌, ◌<◌, ◌≡◌, refl, false, arith, if◌then◌else◌, ◌==◌, ◌||◌, nat_eq, ltb,
}
use libp2p_experiment.FlatBuffers.{FlatBuffers, Table, MutateLaws}
use libp2p_experiment.Posemesh.Partition.{get_data, data_length, mutate_data}
use libp2p_experiment.DataNode.{merge_loop, merge_partitions}

module _ (fb : FlatBuffers) where
  -- What one partition contributes to another: its elements, if it has as many.
  abbrev pub contribution : Table → Table → ℕ → Bool
  contribution p1 p2 k = if data_length fb p1 == data_length fb p2 then get_data fb p2 k else false

module _ (fb : FlatBuffers) (L : MutateLaws fb 4) where
  data_length-mutate_data :
      (t : Table) (j : ℕ) (b : Bool)
      → j < data_length fb t
      → data_length fb (mutate_data fb t j b).1 ≡ data_length fb t
  unfolding data_length mutate_data
  data_length-mutate_data t j b h = ground (arith, L.same-offset t j b, L.same-vector_len t j b)

  get_data-mutate_data :
      (t : Table) (j k : ℕ) (b : Bool)
      → j < data_length fb t
      → k < data_length fb t
      → get_data fb (mutate_data fb t j b).1 k ≡ (if k == j then b else get_data fb t k)
  unfolding data_length mutate_data get_data
  get_data-mutate_data t j k b h l =
      ground (arith, L.same-offset t j b, L.same-vector t j b, L.get-mutate t j k b)

  -- The loop from `i` on: the elements before `i` are left, the others are merged.
  merge_loop_lem :
      (left i : ℕ) (p1 p2 : Table)
      → i + left ≡ data_length fb p1
      → (data_length fb (merge_loop fb left i p1 p2) ≡ data_length fb p1)
        × ((k : ℕ)
            → k < data_length fb p1
            → get_data fb (merge_loop fb left i p1 p2) k
              ≡ (if ltb k i then get_data fb p1 k else get_data fb p1 k || get_data fb p2 k))
  unfolding merge_loop
  merge_loop_lem zero i p1 p2 h = (refl, λ k l. ground arith)
  merge_loop_lem (suc left) i p1 p2 h =
      let b = get_data fb p1 i || get_data fb p2 i in
      let p = (mutate_data fb p1 i b).1 in
      let same = data_length-mutate_data p1 i b (omega arith) in
      let ih = merge_loop_lem left (suc i) p p2 (omega (arith, same)) in
      (
        ground (arith, ih.0, same),
        λ k l. ground (arith, same, ih.1 k, get_data-mutate_data p1 i k b),
      )

  -- Merging keeps the length of the first partition, and sets an element exactly when it was set
  -- already or when the second partition has the same length and the element set. So partitions of
  -- different lengths leave the first one as it is. The writes to a vector are lawful.
  pub merge_partitions_lem :
      (p1 p2 : Table)
      → (data_length fb (merge_partitions fb p1 p2) ≡ data_length fb p1)
        × ((k : ℕ)
            → k < data_length fb p1
            → get_data fb (merge_partitions fb p1 p2) k
              ≡ (get_data fb p1 k || contribution fb p1 p2 k))
  unfolding merge_partitions
  merge_partitions_lem p1 p2 =
      let loop = merge_loop_lem (data_length fb p1) 0 p1 p2 (omega arith) in
      (ground (arith, loop.0), λ k l. ground (arith, loop.1 k))
