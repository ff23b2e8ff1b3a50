-- ===== src/Tests/Builder.antt =====
-- A small FlatBuffers with a builder: an object is the list of its fields, each with its slot, its
-- content, every byte one higher, and a 0. A message is its size in four bytes and an object.
pub mod Read
pub mod Drafts
use libp2p_experiment.Base.{
  ℕ, zero, suc, ◌+◌, ◌-◌, ◌*◌, ◌/◌, ◌%◌, ◌<◌, ◌^◌, ◌≡◌, ◌≢◌, refl, ap, sym, ◌∙◌, String, Bool, true,
  false, Option, none, some, List, [], ◌∷◌, ◌++◌, if◌then◌else◌, ◌==◌, nat_eq, string_eq, length,
  get_elem?, map, arith, ltb, drop, Option-cases, inl, inr,
}
use libp2p_experiment.Base.Effects.{ok}
use libp2p_experiment.Os.{Bytes}
use libp2p_experiment.Tests.{number, little_endian}
use libp2p_experiment.FlatBuffers.{FlatBuffers, BuilderApi, Table, SizePrefix, uoffset}
use libp2p_experiment.FlatBuffers.Built.{
  Built, Creates, Written, Object, Field, at, float, uint32, int64, byte, is_zero, is_one, slot_of,
  Reads, ReadsBytes, ReadsObject,
}

abbrev pub Fields : Type 0
Fields = List (ℕ × Field)

-- What is written: bytes and objects, one after the other.
pub data Item : Type 0 where
  bytes : Bytes → Item
  object : Fields → Item

pub record Draft : Type 0 where
  pub items : List Item
  pub open_fields : Fields
  pub message : Bytes

-- The item at an offset: offsets count from 1.
unfoldable pub item_at : List Item → ℕ → Option Item
item_at items zero = none
item_at items (suc i) = get_elem? items i

abbrev pub bytes_of : Option Item → Option Bytes
bytes_of (some (bytes s)) = some s
bytes_of (some (object _)) = none
bytes_of none = none

unfoldable pub field_at : Fields → ℕ → Option Field
field_at [] j = none
field_at ((k, f) ∷ fs) j = let rest = field_at fs j in if j == k then some f else rest

abbrev pub object_of : Option Item → Option Object
object_of (some (object fs)) = some (field_at fs)
object_of (some (bytes _)) = none
object_of none = none

abbrev pub written_of : List Item → Written
written_of items = record {
  strings = λ o. bytes_of (item_at items o);
  objects = λ o. object_of (item_at items o);
}

abbrev pub raised : Bytes → Bytes
raised [] = 0 ∷ []
raised (x ∷ xs) = suc x ∷ raised xs

-- The fields, where `content` is what an item makes.
abbrev pub field_content : (Option Item → Bytes) → List Item → Field → Bytes
field_content content items (at o) = content (item_at items o)
field_content content items (float x) = x ∷ []
field_content content items (uint32 x) = x ∷ []
field_content content items (int64 x) = x ∷ []
field_content content items (byte x) = x ∷ []

unfoldable pub encode : (Option Item → Bytes) → List Item → Fields → Bytes
encode content items [] = []
encode content items ((k, f) ∷ fs) =
    slot_of k ∷ (raised (field_content content items f) ++ encode content items fs)

-- The bytes of an item within an object within the root, and within the root.
abbrev pub inner : Option Item → Bytes
inner (some (bytes s)) = s
inner (some (object _)) = []
inner none = []

abbrev pub outer : List Item → Option Item → Bytes
outer items (some (bytes s)) = s
outer items (some (object fs)) = encode inner items fs
outer items none = []

-- The content of a field, up to the 0.
unfoldable pub lowered : Bytes → Bytes
lowered [] = []
lowered (zero ∷ xs) = []
lowered (suc x ∷ xs) = x ∷ lowered xs

-- The search for a slot, at its start or within the content of a field.
unfoldable pub seek : Bool → ℕ → Bytes → Option Bytes
unfolding lowered
seek within q [] = none
seek true q (zero ∷ xs) = seek false q xs
seek true q (suc x ∷ xs) = seek true q xs
seek false q (k ∷ xs) = let rest = seek true q xs in if q == k then some (lowered xs) else rest

lowered-raised : (s xs : Bytes) → lowered (raised s ++ xs) ≡ s
unfolding lowered
lowered-raised [] xs = refl
lowered-raised (x ∷ s) xs = ap (◌∷◌ x) (lowered-raised s xs)

seek-raised : (q : ℕ) (s xs : Bytes) → seek true q (raised s ++ xs) ≡ seek false q xs
unfolding seek
seek-raised q [] xs = refl
seek-raised q (x ∷ s) xs = seek-raised q s xs

module _ (content : Option Item → Bytes) (items : List Item) where
  abbrev pub content_of : Option Field → Option Bytes
  content_of none = none
  content_of (some f) = some (field_content content items f)

  pub seek-encode :
      (k : ℕ) (fs : Fields)
      → seek false (slot_of k) (encode content items fs) ≡ content_of (field_at fs k)
  unfolding seek encode field_at
  seek-encode k [] = refl
  seek-encode k ((j, f) ∷ fs) = ground (
    arith,
    seek-encode k fs,
    lowered-raised (field_content content items f) (encode content items fs),
    seek-raised (slot_of k) (field_content content items f) (encode content items fs),
  )

abbrev pub or_empty : Option Bytes → Bytes
or_empty none = []
or_empty (some s) = s

abbrev pub present : Option Bytes → ℕ → ℕ
present none slot = 0
present (some _) slot = slot

abbrev pub first_of : Option Bytes → ℕ
first_of (some (x ∷ _)) = x
first_of _ = 0

abbrev pub or_zero : Option ℕ → ℕ
or_zero none = 0
or_zero (some x) = x

-- The content of the field at a position behind that of the table.
abbrev pub in_slot : Table → ℕ → Option Bytes
in_slot t slot = seek false slot (drop t.pos t.bytes)

-- Two numbers are told apart, 0 and 1.
abbrev pub text_of_number : ℕ → String
text_of_number zero = "0"
text_of_number (suc n) = "1"

abbrev pub small : FlatBuffers
small = record {
  size_uoffset = 4;
  size_uint32 = 4;
  get_size_prefix = number;
  get_uoffset = λ _. ok 0;
  offset = λ t slot. present (in_slot t slot) slot;
  byte_vector = λ t q. or_empty (in_slot t (q - t.pos));
  vector = λ _ slot. slot * 2 ^ 24;
  vector_len = λ t slot. length (or_empty (in_slot t slot));
  union = λ t slot. record { bytes = 0 ∷ 0 ∷ 0 ∷ 0 ∷ or_empty (in_slot t slot); pos = 4 };
  indirect = λ _ _. 0;
  get_bool = λ t q. is_one (get_elem? (or_empty (in_slot t (q / 2 ^ 24))) (q % 2 ^ 24));
  mutate_bool = λ t _ _. (false, t);
  get_byte = λ t q. first_of (in_slot t (q - t.pos));
  get_uint32 = λ t q. first_of (in_slot t (q - t.pos));
  get_float32 = λ t q. first_of (in_slot t (q - t.pos));
  get_int64_text = λ t q. text_of_number (first_of (in_slot t (q - t.pos)));
  int64_text = text_of_number;
  get_int32_text = λ _ _. "0";
  get_int8_byte = λ t q. or_zero (get_elem? (or_empty (in_slot t (q / 2 ^ 24))) (q % 2 ^ 24));
  text = λ s. if length s == 0 then "" else "name";
}

abbrev pub table_of : Bytes → Table
table_of content = record { bytes = 0 ∷ 0 ∷ 0 ∷ 0 ∷ content; pos = 4 }

pub slot_kept : (k p : ℕ) → k < 64 → p < 8 → uoffset (slot_of k + p) - p ≡ slot_of k
slot_kept k p h l = omega arith

pub element_slot :
    (k j : ℕ) → k < 64 → j < 2 ^ 24 → uoffset (slot_of k * 2 ^ 24 + uoffset j) / 2 ^ 24 ≡ slot_of k
element_slot k j h l = omega arith

pub element_index :
    (k j : ℕ) → k < 64 → j < 2 ^ 24 → uoffset (slot_of k * 2 ^ 24 + uoffset j) % 2 ^ 24 ≡ j
element_index k j h l = omega arith

pub small-SizePrefix : SizePrefix small
small-SizePrefix = record {
  prefix = little_endian;
  nonempty = omega arith;
  length-prefix = λ n. refl;
  get-prefix = λ n h. omega arith;
}
