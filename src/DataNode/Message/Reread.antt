-- ===== src/DataNode/Message/Reread.antt =====
-- The message of a merged partition, read again: by the subscribers, and by the next merge.
use mathlib.Core.Path.{subst}
use libp2p_experiment.Base.{
  ℕ, zero, suc, ◌+◌, ◌<◌, ◌^◌, ◌≡◌, ◌≢◌, refl, ap, ◌∙◌, String, arith, length, get_elem?, nat_eq,
}
use libp2p_experiment.Base.Effects.{ok}
use libp2p_experiment.Os.{Bytes}
use libp2p_experiment.FlatBuffers.{FlatBuffers, BuilderApi, Table, uoffset}
use libp2p_experiment.FlatBuffers.Built.{Built, is_one, Reads, ReadsBytes}
use libp2p_experiment.Posemesh.{get_size_prefixed_root_as}
use libp2p_experiment.Posemesh.Reading.{root_found, bytes_field-at}
use libp2p_experiment.Posemesh.DomainData
use libp2p_experiment.Posemesh.DomainData.{any_domain_data_partition}
use libp2p_experiment.Posemesh.Partition.{get_data, data_length}
use libp2p_experiment.DataNode.{get_partition, partition_bytes}
use libp2p_experiment.DataNode.Message.{merged_message}
use libp2p_experiment.DataNode.Message.Fields.{
  ended, id_offset, name_offset, version_offset, partition_offset, partition_open, slot_6, id_held,
  name_held, version_held, elements_held, partition_held, elements_field, data_field, type_field,
  name_field, id_field, version_field,
}

-- The bytes of a partition, one for each element.
module _ (fb : FlatBuffers) where
  length-partition_bytes : (n i : ℕ) (p : Table) → length (partition_bytes fb n i p) ≡ n
  unfolding partition_bytes
  length-partition_bytes zero i p = refl
  length-partition_bytes (suc n) i p = ap suc (length-partition_bytes n (suc i) p)

  get_elem?-partition_bytes :
      (n i j : ℕ) (p : Table)
      → j < n
      → is_one (get_elem? (partition_bytes fb n i p) j) ≡ get_data fb p (i + j)
  unfolding partition_bytes
  get_elem?-partition_bytes zero i j p h = absurd (omega arith)
  get_elem?-partition_bytes (suc n) i zero p h = ground arith
  get_elem?-partition_bytes (suc n) i (suc j) p h =
      get_elem?-partition_bytes n (suc i) j p (omega arith)
      ∙ ap (get_data fb p) {x = suc i + j} {y = i + suc j} (omega arith)

  -- A table that holds a partition with the elements of another one.
  pub record SameElements (p q : Table) : Type 0 where
    pub same_length : data_length fb q ≡ data_length fb p
    pub same_data : (j : ℕ) → j < data_length fb p → get_data fb q j ≡ get_data fb p j

  -- Of a partition with the bytes of its elements in its first slot.
  pub partition_read :
      (p q : Table)
      → data_length fb p < 2 ^ 24
      → ReadsBytes fb q (fb.offset q 4) (partition_bytes fb (data_length fb p) 0 p)
      → SameElements p q
  unfolding data_length get_data
  partition_read p q h r =
      let n = length-partition_bytes (data_length fb p) 0 p in
      record {
        same_length = ground (arith, r.present, r.content_length, n);
        same_data = λ j l. ground (
          arith,
          r.present,
          r.element j (omega (arith, n)) (omega (arith, n)),
          get_elem?-partition_bytes (data_length fb p) 0 j p l,
        );
      }

  pub partition_found :
      (d : Table)
      → ◌≢◌ (fb.offset d 16) 0
      → ◌≢◌ (fb.offset d 14) 0
      → fb.get_byte d (uoffset (fb.offset d 14 + d.pos)) ≡ any_domain_data_partition
      → get_partition fb d ≡ ok (fb.union d (fb.offset d 16))
  unfolding get_partition DomainData.union_data DomainData.data_type
  partition_found d there typed type = ground (arith, there, typed, type)

  -- What a reader gets from the message of the domain data `old` and the partition `p`.
  pub record Reread (utf8 : String → Bytes) (message : Bytes) (old : Table) (ver : String)
      (p d q : Table) : Type 0 where
    pub readable : get_size_prefixed_root_as fb message 0 ≡ ok d
    pub same_domain : DomainData.domain_id fb d ≡ DomainData.domain_id fb old
    pub same_name : DomainData.name fb d ≡ DomainData.name fb old
    pub new_version : DomainData.version fb d ≡ utf8 ver
    pub partition : get_partition fb d ≡ ok q
    pub same_elements : SameElements p q

-- A merged partition of less than 2 ^ 24 elements is read as it was written: the message can be
-- read, names the domain and the data that came, has the new version, and holds a partition with
-- the same elements. The builder and the tables of FlatBuffers are lawful.
pub merged_message-Reread :
    (fb : FlatBuffers) (api : BuilderApi) (B : Built fb api) (old p : Table) (ver : String)
    → data_length fb p < 2 ^ 24
    → let message =
        merged_message api
          (DomainData.domain_id fb old)
          (DomainData.name fb old)
          ver
          (partition_bytes fb (data_length fb p) 0 p) in
      (d : Table) × ((q : Table) × Reread fb B.utf8 message old ver p d q)
unfolding merged_message DomainData.domain_id DomainData.name DomainData.version
merged_message-Reread fb api B old p ver h =
    let id = DomainData.domain_id fb old in
    let name = DomainData.name fb old in
    let elements = partition_bytes fb (data_length fb p) 0 p in
    let b = ended fb api B id name ver elements in
    let o = (api.end_object (slot_6 fb api B id name ver elements)).0 in
    let bytes = api.finished_bytes (api.finish_size_prefixed o b) in
    let (fits, (n, (root, reads))) =
      B.finished b o (B.fields (slot_6 fb api B id name ver elements))
        (B.ended (slot_6 fb api B id name ver elements)) in
    let d : Table = record { bytes = bytes; pos = uoffset (n + fb.size_uint32) } in
    let within =
      (reads 6 (omega arith)).1 (partition_offset fb api B id name ver elements)
        (data_field fb api B id name ver elements)
        (B.fields (partition_open fb api B id name ver elements))
        (partition_held fb api B id name ver elements) in
    let typed =
      subst (Reads fb (B.written b) d 5) (type_field fb api B id name ver elements)
        (reads 5 (omega arith)).0 in
    let content =
      subst (Reads fb (B.written b) (fb.union d (fb.offset d 16)) 0)
        (elements_field fb api B id name ver elements) (within.1 0 (omega arith)) elements
        (elements_held fb api B id name ver elements) in
    (
      d,
      (
        fb.union d (fb.offset d 16),
        record {
          readable = root_found fb bytes n fits root;
          same_domain =
              bytes_field-at fb (B.written b) d 2 (id_offset fb api B id name ver elements) id
                (B.fields (slot_6 fb api B id name ver elements) 2) (reads 2 (omega arith)).0
                (id_field fb api B id name ver elements) (id_held fb api B id name ver elements);
          same_name =
              bytes_field-at fb (B.written b) d 3 (name_offset fb api B id name ver elements) name
                (B.fields (slot_6 fb api B id name ver elements) 3) (reads 3 (omega arith)).0
                (name_field fb api B id name ver elements)
                (name_held fb api B id name ver elements);
          new_version =
              bytes_field-at fb (B.written b) d 4 (version_offset fb api B id name ver elements)
                (B.utf8 ver) (B.fields (slot_6 fb api B id name ver elements) 4)
                (reads 4 (omega arith)).0 (version_field fb api B id name ver elements)
                (version_held fb api B id name ver elements);
          partition = partition_found fb d within.0 typed.0 typed.1;
          same_elements = partition_read fb p (fb.union d (fb.offset d 16)) h content;
        },
      ),
    )
