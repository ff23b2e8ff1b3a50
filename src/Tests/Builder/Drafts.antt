-- ===== src/Tests/Builder/Drafts.antt =====
-- The builder of the small FlatBuffers, and its laws.
use libp2p_experiment.Base.{
  ℕ, zero, suc, ◌+◌, ◌<◌, drop, ◌≡◌, refl, ap, sym, ◌∙◌, String, Bool, true, false, Option, none,
  some, List, [], ◌∷◌, ◌++◌, if◌then◌else◌, ◌==◌, nat_eq, string_eq, length, get_elem?, arith,
  Option-cases, inl, inr,
}
use libp2p_experiment.Os.{Bytes}
use libp2p_experiment.Wire.Frames.{sized}
use libp2p_experiment.FlatBuffers.{uoffset, BuilderApi, Table}
use libp2p_experiment.FlatBuffers.Built.{
  Built, Creates, Object, Field, at, float, uint32, int64, byte, is_zero, Reads, ReadsObject,
}
use libp2p_experiment.FlatBuffers.Framed.{Framed}
use libp2p_experiment.Tests.{little_endian}
use libp2p_experiment.Tests.Builder.{
  Fields, Item, bytes, object, Draft, item_at, bytes_of, field_at, object_of, written_of, encode,
  outer, small, small-SizePrefix,
}
use libp2p_experiment.Tests.Builder.Read.{Reads-small, ReadsObject-small, outer_keeps, field_in}

abbrev or_no_fields : Option Item → Fields
or_no_fields (some (object fs)) = fs
or_no_fields (some (bytes _)) = []
or_no_fields none = []

abbrev content_at : List Item → ℕ → Bytes
content_at items o = encode (outer items) items (or_no_fields (item_at items o))

abbrev add_item : Item → Draft → ℕ × Draft
add_item i b = (suc (length b.items), record b { items = b.items ++ i ∷ [] })

abbrev set_field : ℕ → Field → Draft → Draft
set_field k f b = record b { open_fields = (k, f) ∷ b.open_fields }

abbrev code_of : String → Bytes
code_of s = if s == "" then [] else 1 ∷ []

abbrev pub drafts : BuilderApi
drafts = record {
  Builder = Draft;
  new_builder = record { items = []; open_fields = []; message = [] };
  reset = λ _. record { items = []; open_fields = []; message = [] };
  create_string = λ s. add_item (bytes (code_of s));
  create_byte_string = λ s. add_item (bytes s);
  create_byte_vector = λ s. add_item (bytes s);
  start_vector = λ _ _ _ b. b;
  prepend_uoffset = λ _ b. b;
  end_vector = λ _ b. (0, b);
  start_object = λ _ b. record b { open_fields = [] };
  end_object = λ b. add_item (object b.open_fields) b;
  prepend_uoffset_slot = λ k o d b. if o == d then b else set_field k (at o) b;
  prepend_uint32_slot = λ k x d b. if x == d then b else set_field k (uint32 x) b;
  prepend_byte_slot = λ k x d b. if x == d then b else set_field k (byte x) b;
  prepend_int64_slot = λ k x d b. if x == d then b else set_field k (int64 x) b;
  prepend_float32_slot = λ k x _ b. if is_zero x then b else set_field k (float x) b;
  builder_offset = λ b. length b.items;
  finish_size_prefixed = λ o b. record b {
    message = little_endian (length (content_at b.items o)) ++ content_at b.items o;
  };
  finished_bytes = λ b. b.message;
}

get_elem?-last : {A : Type 0} (xs : List A) (x : A) → get_elem? (xs ++ x ∷ []) (length xs) ≡ some x
get_elem?-last [] x = refl
get_elem?-last (y ∷ xs) x = get_elem?-last xs x

get_elem?-more :
    {A : Type 0} (xs ys : List A) (i : ℕ) {x : A}
    → get_elem? xs i ≡ some x
    → get_elem? (xs ++ ys) i ≡ some x
get_elem?-more [] ys i h = ground (arith, h)
get_elem?-more (x ∷ xs) ys zero h = h
get_elem?-more (x ∷ xs) ys (suc i) h = get_elem?-more xs ys i h

item_at-more :
    (items : List Item) (i : Item) (o : ℕ) {j : Item}
    → item_at items o ≡ some j
    → item_at (items ++ i ∷ []) o ≡ some j
unfolding item_at
item_at-more items i zero h = ground (arith, h)
item_at-more items i (suc o) h = get_elem?-more items (i ∷ []) o h

-- What is read of an item stays when others are added.
stays :
    {A : Type 0} (view : Option Item → Option A) (items : List Item) (i : Item) (o : ℕ) (a : A)
    → view none ≡ none
    → view (item_at items o) ≡ some a
    → view (item_at (items ++ i ∷ []) o) ≡ some a
stays view items i o a empty h = elim (Option-cases (item_at items o)) [
  | inl e ↦ absurd (let f : none ≡ some a = sym empty ∙ ap view (sym e) ∙ h in ground (arith, f))
  | inr (j, e) ↦ ap view (item_at-more items i o e) ∙ ap view (sym e) ∙ h
]

creates :
    {A : Type 0} (code : A → Bytes)
    → Creates small drafts (λ b. written_of b.items) code (λ a. add_item (bytes (code a)))
unfolding item_at
creates code = record {
  created = λ a b. ap bytes_of (get_elem?-last b.items (bytes (code a)));
  created_not_zero = λ a b. ground arith;
  created_keeps = λ a t o b. stays bytes_of b.items (bytes (code a)) o t refl;
}

same_items :
    (c : Bool) (k : ℕ) (f : Field) (b : Draft)
    → written_of (if c then b else set_field k f b).items ≡ written_of b.items
same_items true k f b = refl
same_items false k f b = refl

-- Of a table with the content of an object.
finished_drafts :
    (b : Draft) (t : Table) (o : ℕ) (f : Object)
    → drop t.pos t.bytes ≡ content_at b.items o
    → t.pos < 8
    → object_of (item_at b.items o) ≡ some f
    → (k : ℕ) → k < 64
    → Reads small (written_of b.items) t k (f k)
      × ((o : ℕ) → f k ≡ some (at o) → ReadsObject small (written_of b.items) t k o)
finished_drafts b t o f view near e k h = go (item_at b.items o) view e
  where
    go :
        (i : Option Item)
        → drop t.pos t.bytes ≡ encode (outer b.items) b.items (or_no_fields i)
        → object_of i ≡ some f
        → Reads small (written_of b.items) t k (f k)
          × ((o : ℕ) → f k ≡ some (at o) → ReadsObject small (written_of b.items) t k o)
    go none view e = absurd (ground (arith, e))
    go (some (bytes _)) view e = absurd (ground (arith, e))
    go (some (object fs)) view e =
        let same : field_at fs k ≡ f k = ap (λ o. field_in o k) {x = some (field_at fs)} e in
        (
          Reads-small (outer b.items) b.items (outer_keeps b.items) t fs k (f k) view near h same,
          λ o g. ReadsObject-small b.items t fs k o view h (same ∙ g),
        )

abbrev sized_table : Draft → ℕ → Table
sized_table b o = record {
  bytes = drafts.finished_bytes (drafts.finish_size_prefixed o b);
  pos = uoffset (0 + 4);
}

abbrev bare_table : Draft → ℕ → Table
bare_table b o = record { bytes = content_at b.items o; pos = uoffset 0 }

pub drafts-Built : Built small drafts
unfolding field_at item_at
drafts-Built = record {
  written = λ b. written_of b.items;
  fields = λ b. field_at b.open_fields;
  utf8 = code_of;
  byte_strings = creates (λ s. s);
  byte_vectors = creates (λ s. s);
  texts = creates code_of;
  written-start = λ n b. refl;
  fields-start = λ n k b. refl;
  written-offset = λ k o b. same_items (o == 0) k (at o) b;
  fields-offset = λ k o j b h. ground (arith, h);
  written-float = λ k x b. same_items (is_zero x) k (float x) b;
  fields-float = λ k x j b. ground arith;
  written-uint32 = λ k x b. same_items (x == 0) k (uint32 x) b;
  fields-uint32 = λ k x j b. ground arith;
  written-byte = λ k x b. same_items (x == 0) k (byte x) b;
  fields-byte = λ k x j b. ground arith;
  strings-end = λ o s b. stays bytes_of b.items (object b.open_fields) o s refl;
  objects-end = λ o f b. stays object_of b.items (object b.open_fields) o f refl;
  ended = λ b. ap object_of (get_elem?-last b.items (object b.open_fields));
  ended_not_zero = λ b. ground arith;
  written-int64 = λ k x b. same_items (x == 0) k (int64 x) b;
  fields-int64 = λ k x j b. ground arith;
  finished = λ b o f e.
      (ground arith, (0, (refl, finished_drafts b (sized_table b o) o f refl (omega arith) e)));
}

pub drafts-Framed : Framed small drafts drafts-Built small-SizePrefix
unfolding drafts-Built small-SizePrefix
drafts-Framed = record {
  framed = λ b o f e. (
    content_at b.items o,
    (refl, (0, (refl, finished_drafts b (bare_table b o) o f refl (omega arith) e))),
  );
}

pub text-utf8 : small.text (drafts-Built.utf8 "name") ≡ "name"
unfolding drafts-Built nat_eq string_eq
text-utf8 = refl

pub sized_lem : (b : Bytes) → sized small small-SizePrefix b ≡ little_endian (length b) ++ b
unfolding small-SizePrefix
sized_lem b = refl
