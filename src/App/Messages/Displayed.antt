-- ===== src/App/Messages/Displayed.antt =====
-- A merged partition on its way from the data node to the display of the application.
use mathlib.Core.Path.{subst, ap₂}
use libp2p_experiment.Base.{
  ℕ, zero, suc, ◌+◌, ◌<◌, ◌^◌, ◌≡◌, refl, ap, ◌∙◌, set, String, Option, some, ◌∷◌, ◌++◌, length,
  arith, nat_eq, if◌then◌else◌,
}
use libp2p_experiment.Base.Effects.{ok, lift, >>=-ok}
use libp2p_experiment.Os.{Bytes, Fs}
use libp2p_experiment.FlatBuffers.{FlatBuffers, BuilderApi, SizePrefix, Table}
use libp2p_experiment.FlatBuffers.Built.{Built, Reads}
use libp2p_experiment.FlatBuffers.Framed.{Framed}
use libp2p_experiment.Posemesh.{get_root_as}
use libp2p_experiment.Posemesh.DomainData
use libp2p_experiment.Posemesh.Partition.{get_data, data_length}
use libp2p_experiment.Posemesh.Reading.{message-ReadsBare, bytes_field-Contents}
use libp2p_experiment.DataNode.{get_partition, partition_bytes}
use libp2p_experiment.DataNode.Message.{merged_message}
use libp2p_experiment.DataNode.Message.Fields.{
  ended, name_offset, partition_offset, partition_open, slot_6, name_held, elements_held,
  partition_held, elements_field, data_field, type_field, name_field,
}
use libp2p_experiment.DataNode.Message.Reread.{SameElements, partition_read, partition_found}
use libp2p_experiment.App.{Visual, add_row, on_row}

-- The bytes of a partition tell its elements and nothing else.
partition_bytes-same :
    (fb : FlatBuffers) (p q : Table) (n i : ℕ)
    → ((j : ℕ) → j < i + n → get_data fb q j ≡ get_data fb p j)
    → partition_bytes fb n i q ≡ partition_bytes fb n i p
unfolding partition_bytes
partition_bytes-same fb p q zero i h = refl
partition_bytes-same fb p q (suc n) i h =
    ap₂ ◌∷◌ (ap (λ b. if b then 1 else 0) (h i (omega arith)))
      (partition_bytes-same fb p q n (suc i) (λ j l. h j (omega arith)))

module _ (fb : FlatBuffers) (api : BuilderApi) (B : Built fb api) (old p : Table)
    (ver : String) where
  abbrev name : Bytes
  name = DomainData.name fb old

  abbrev elements : Bytes
  elements = partition_bytes fb (data_length fb p) 0 p

  abbrev id : Bytes
  id = DomainData.domain_id fb old

  -- What the application makes of the message.
  pub record Displayed (P : SizePrefix fb) (buf : Bytes) (d q : Table) : Type 0 where
    pub with_size : merged_message api id name ver elements ≡ P.prefix (length buf) ++ buf
    pub readable : get_root_as fb buf 0 ≡ ok d
    pub same_name : DomainData.name fb d ≡ name
    pub partition : get_partition fb d ≡ ok q
    pub same_elements : SameElements fb p q

  merged_message-Displayed :
      (P : SizePrefix fb)
      → Framed fb api B P
      → data_length fb p < 2 ^ 24
      → (buf : Bytes) × ((d : Table) × ((q : Table) × Displayed P buf d q))
  unfolding merged_message DomainData.name
  merged_message-Displayed P F h =
      let (buf, (d, r)) = message-ReadsBare fb api B (slot_6 fb api B id name ver elements) P F in
      let w = B.written (ended fb api B id name ver elements) in
      let within =
        r.contents.object 6 (partition_offset fb api B id name ver elements) (omega arith)
          (data_field fb api B id name ver elements)
          (B.fields (partition_open fb api B id name ver elements))
          (partition_held fb api B id name ver elements) in
      let typed =
        subst (Reads fb w d 5) (type_field fb api B id name ver elements)
          (r.contents.field 5 (omega arith)) in
      let content =
        subst (Reads fb w (fb.union d (fb.offset d 16)) 0)
          (elements_field fb api B id name ver elements) (within.1 0 (omega arith)) elements
          (elements_held fb api B id name ver elements) in
      (
        buf,
        (
          d,
          (
            fb.union d (fb.offset d 16),
            record {
              with_size = r.with_size;
              readable = r.readable;
              same_name =
                  bytes_field-Contents fb w (B.fields (slot_6 fb api B id name ver elements)) d
                    r.contents 3 (name_offset fb api B id name ver elements) name (omega arith)
                    (name_field fb api B id name ver elements)
                    (name_held fb api B id name ver elements);
              partition = partition_found fb d within.0 typed.0 typed.1;
              same_elements = partition_read fb p (fb.union d (fb.offset d 16)) h content;
            },
          ),
        ),
      )

  same_bytes :
      (q : Table) → SameElements fb p q → partition_bytes fb (data_length fb q) 0 q ≡ elements
  same_bytes q e =
      ap (λ n. partition_bytes fb n 0 q) e.same_length
      ∙ partition_bytes-same fb p q (data_length fb p) 0 (λ j l. e.same_data j (omega (arith, l)))

  -- What is on the display once the callback got the message.
  pub record OnDisplay (P : SizePrefix fb) (parse_index : Bytes → Option ℕ) (fs : Fs) (v : Visual)
      (i : ℕ) (buf : Bytes) (d : Table) : Type 0 where
    pub with_size : merged_message api id name ver elements ≡ P.prefix (length buf) ++ buf
    pub readable : get_root_as fb buf 0 ≡ ok d
    pub displayed : on_row fb parse_index d (fs, v) ≡ (ok tt, (fs, set v i elements))

  -- What a data node merges is what a subscriber shows: the application reads the message of a merged
  -- partition of less than 2 ^ 24 elements behind its size, and its callback puts the elements, one
  -- number for each, into the row of the display that the name of the data stands for, where the
  -- display has that row. The builder and the tables of FlatBuffers are lawful.
  pub on_row-merged_message :
      (P : SizePrefix fb) (parse_index : Bytes → Option ℕ) (fs : Fs) (v : Visual) (i : ℕ)
      → Framed fb api B P
      → data_length fb p < 2 ^ 24
      → parse_index (DomainData.name fb old) ≡ some i
      → i < length v
      → (buf : Bytes) × ((d : Table) × OnDisplay P parse_index fs v i buf d)
  unfolding on_row add_row
  on_row-merged_message P parse_index fs v i F h index within =
      let (buf, (d, (q, r))) = merged_message-Displayed P F h in
      (
        buf,
        (
          d,
          record {
            with_size = r.with_size;
            readable = r.readable;
            displayed =
                >>=-ok (lift (get_partition fb d)) _ (fs, v) (ap (λ x. (x, (fs, v))) r.partition)
                ∙ ground (
                  arith,
                  same_bytes q r.same_elements,
                  ap parse_index r.same_name,
                  index,
                  within,
                );
          },
        ),
      )
