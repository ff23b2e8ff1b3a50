-- ===== src/Tests/Builder/Read.antt =====
-- What an encoded object is read as.
use libp2p_experiment.Base.{
  ℕ, zero, suc, length, get_elem?, drop, [], ◌∷◌, ◌<◌, ◌^◌, ◌≡◌, ◌≢◌, refl, ap, ◌∙◌, false, Option,
  none, some, List, nat_eq, string_eq, arith,
}
use libp2p_experiment.Os.{Bytes}
use libp2p_experiment.FlatBuffers.{Table}
use libp2p_experiment.FlatBuffers.Built.{
  Object, Field, at, float, uint32, int64, byte, slot_of, Reads, ReadsBytes, ReadsObject,
}
use libp2p_experiment.Tests.Builder.{
  Fields, Item, bytes, object, item_at, bytes_of, field_at, object_of, written_of, encode, inner,
  outer, seek, or_zero, content_of, seek-encode, small, table_of, slot_kept, element_slot,
  element_index,
}

in_range : (s : Bytes) (j : ℕ) → j < length s → some (or_zero (get_elem? s j)) ≡ get_elem? s j
in_range [] j h = absurd (omega arith)
in_range (x ∷ s) zero h = refl
in_range (x ∷ s) (suc j) h = in_range s j (omega arith)

-- What an encoded object is read as, where the content of an item of bytes is the bytes.
module _ (content : Option Item → Bytes) (items : List Item)
    (keeps : (i : Option Item) (s : Bytes) → bytes_of i ≡ some s → content i ≡ s) where
  module _ (t : Table) (c : Bytes) (view : drop t.pos t.bytes ≡ c) (near : t.pos < 8) where
    ReadsBytes-small :
        (k : ℕ) (s : Bytes)
        → k < 64
        → seek false (slot_of k) c ≡ some s
        → ReadsBytes small t (small.offset t (slot_of k)) s
    ReadsBytes-small k s h e = record {
      present = rw (view, e) (ground arith);
      content = rw (view, e, slot_kept k t.pos h near, e) refl;
      content_length = rw (view, e, e) refl;
      element = λ j l m.
          let below : j < 2 ^ 24 = omega arith in
          rw (view, e, element_slot k j h below, element_index k j h below, e) refl;
      octet = λ j l m.
          let below : j < 2 ^ 24 = omega arith in
          rw (view, e, element_slot k j h below, element_index k j h below, e) (in_range s j l);
    }

    Reads-content :
        (k : ℕ) (f : Option Field)
        → k < 64
        → seek false (slot_of k) c ≡ content_of content items f
        → Reads small (written_of items) t k f
    Reads-content k none h e = rw (view, e) refl
    Reads-content k (some (at o)) h e =
        λ s held. ReadsBytes-small k s h (e ∙ ap some (keeps (item_at items o) s held))
    Reads-content k (some (float x)) h e =
        (rw (view, e) (ground arith), rw (view, e, slot_kept k t.pos h near, e) refl)
    Reads-content k (some (uint32 x)) h e =
        (rw (view, e) (ground arith), rw (view, e, slot_kept k t.pos h near, e) refl)
    Reads-content k (some (int64 x)) h e =
        (rw (view, e) (ground arith), rw (view, e, slot_kept k t.pos h near, e) refl)
    Reads-content k (some (byte x)) h e =
        (rw (view, e) (ground arith), rw (view, e, slot_kept k t.pos h near, e) refl)

  pub Reads-small :
      (t : Table) (fs : Fields) (k : ℕ) (f : Option Field)
      → drop t.pos t.bytes ≡ encode content items fs
      → t.pos < 8
      → k < 64
      → field_at fs k ≡ f
      → Reads small (written_of items) t k f
  Reads-small t fs k f view near h e =
      Reads-content t (encode content items fs) view near k f h
        (seek-encode content items k fs ∙ ap (content_of content items) e)

inner_keeps : (i : Option Item) (s : Bytes) → bytes_of i ≡ some s → inner i ≡ s
inner_keeps (some (bytes t)) s e = ground (arith, e)
inner_keeps (some (object _)) s e = absurd (ground (arith, e))
inner_keeps none s e = absurd (ground (arith, e))

pub outer_keeps :
    (items : List Item) (i : Option Item) (s : Bytes) → bytes_of i ≡ some s → outer items i ≡ s
outer_keeps items (some (bytes t)) s e = ground (arith, e)
outer_keeps items (some (object _)) s e = absurd (ground (arith, e))
outer_keeps items none s e = absurd (ground (arith, e))

abbrev pub field_in : Option Object → ℕ → Option Field
field_in none k = none
field_in (some f) k = f k

pub ReadsObject-small :
    (items : List Item) (t : Table) (fs : Fields) (k o : ℕ)
    → drop t.pos t.bytes ≡ encode (outer items) items fs
    → k < 64
    → field_at fs k ≡ some (at o)
    → ReadsObject small (written_of items) t k o
ReadsObject-small items t fs k o view h e =
    go (item_at items o)
      (seek-encode (outer items) items k fs ∙ ap (content_of (outer items) items) e)
  where
    go :
        (i : Option Item)
        → seek false (slot_of k) (encode (outer items) items fs) ≡ some (outer items i)
        → (g : Object) → object_of i ≡ some g
        → ◌≢◌ (small.offset t (slot_of k)) 0
          × ((j : ℕ)
              → j < 64
              → Reads small (written_of items) (small.union t (small.offset t (slot_of k))) j (g j))
    go none e g q = absurd (ground (arith, q))
    go (some (bytes s)) e g q = absurd (ground (arith, q))
    go (some (object inner_fields)) e g q = (
      rw (view, e) (ground arith),
      λ j l.
          rw (view, e, e)
            (Reads-small inner items inner_keeps (table_of (encode inner items inner_fields))
              inner_fields j (g j) refl (omega arith) l
              (ap (λ o. field_in o j) {x = some (field_at inner_fields)} q)),
    )
