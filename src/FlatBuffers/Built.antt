-- ===== src/FlatBuffers/Built.antt =====
-- What the program relies on when it builds a message and reads it again: the documented behaviour of
-- the builder and of the tables of FlatBuffers, for messages with the size prefix, objects of at
-- most 64 slots, and the Booleans of a vector of less than 2 ^ 24 bytes.
use libp2p_experiment.Base.{
  ℕ, ◌+◌, ◌*◌, ◌<◌, ◌^◌, ◌≡◌, ◌≢◌, String, Bool, false, ltb, length, drop, Option, none, some,
  get_elem?, if◌then◌else◌, ◌==◌, ◌||◌, nat_eq,
}
use libp2p_experiment.Base.Effects.{ok}
use libp2p_experiment.Os.{Bytes}
use libp2p_experiment.FlatBuffers.{FlatBuffers, BuilderApi, Table, uoffset}

-- A field of an object: an offset of what was written before, the bits of a float, or a number.
pub data Field : Type 0 where
  at : ℕ → Field
  float uint32 int64 byte : ℕ → Field

-- The bits of 0.0 and of -0.0, which Go finds equal to the default.
abbrev pub is_zero : ℕ → Bool
is_zero x = x == 0 || x == 2 ^ 31

-- Where the slot `k` stands in the table that tells the fields of an object.
abbrev pub slot_of : ℕ → ℕ
slot_of k = 4 + 2 * k

abbrev pub is_one : Option ℕ → Bool
is_one none = false
is_one (some x) = x == 1

-- The fields of an object, by their slots.
abbrev pub Object : Type 0
Object = ℕ → Option Field

-- What a builder has written, at its offsets: texts or vectors of bytes, and objects.
pub record Written : Type 0 where
  pub strings : ℕ → Option Bytes
  pub objects : ℕ → Option Object

module _ (fb : FlatBuffers) where
  -- What the accessors find of bytes at the offset `o` of a table.
  pub record ReadsBytes (t : Table) (o : ℕ) (s : Bytes) : Type 0 where
    pub present : ◌≢◌ o 0
    pub content : fb.byte_vector t (uoffset (o + t.pos)) ≡ s
    pub content_length : fb.vector_len t o ≡ length s
    pub element :
        (j : ℕ)
        → j < length s
        → length s < 2 ^ 24
        → fb.get_bool t (uoffset (fb.vector t o + uoffset j)) ≡ is_one (get_elem? s j)
    pub octet :
        (j : ℕ)
        → j < length s
        → length s < 2 ^ 24
        → some (fb.get_int8_byte t (uoffset (fb.vector t o + uoffset j))) ≡ get_elem? s j

  -- What they find of a field in the slot `k`, without the objects.
  abbrev pub Reads : Written → Table → ℕ → Option Field → Type 0
  Reads w t k none = fb.offset t (slot_of k) ≡ 0
  Reads w t k (some (at o)) =
      (s : Bytes) → w.strings o ≡ some s → ReadsBytes t (fb.offset t (slot_of k)) s
  Reads w t k (some (float x)) =
      ◌≢◌ (fb.offset t (slot_of k)) 0
      × (fb.get_float32 t (uoffset (fb.offset t (slot_of k) + t.pos)) ≡ x)
  Reads w t k (some (uint32 x)) =
      ◌≢◌ (fb.offset t (slot_of k)) 0
      × (fb.get_uint32 t (uoffset (fb.offset t (slot_of k) + t.pos)) ≡ x)
  Reads w t k (some (int64 x)) =
      ◌≢◌ (fb.offset t (slot_of k)) 0
      × (fb.get_int64_text t (uoffset (fb.offset t (slot_of k) + t.pos)) ≡ fb.int64_text x)
  Reads w t k (some (byte x)) =
      ◌≢◌ (fb.offset t (slot_of k)) 0
      × (fb.get_byte t (uoffset (fb.offset t (slot_of k) + t.pos)) ≡ x)

  -- What they find of an object in the slot `k`.
  abbrev pub ReadsObject : Written → Table → ℕ → ℕ → Type 0
  ReadsObject w t k o =
      (f : Object)
      → w.objects o ≡ some f
      → ◌≢◌ (fb.offset t (slot_of k)) 0
        × ((j : ℕ) → j < 64 → Reads w (fb.union t (fb.offset t (slot_of k))) j (f j))

  module _ (api : BuilderApi) (written : api.Builder → Written) where
    -- A call that writes bytes.
    pub record Creates {A : Type 0} (bytes : A → Bytes) (create : A → api.Builder → ℕ × api.Builder)
        : Type 0 where
      pub created :
          (a : A) (b : api.Builder)
          → (written (create a b).1).strings (create a b).0 ≡ some (bytes a)
      pub created_not_zero : (a : A) (b : api.Builder) → ◌≢◌ (create a b).0 0
      pub created_keeps :
          (a : A) (t : Bytes) (o : ℕ) (b : api.Builder)
          → (written b).strings o ≡ some t
          → (written (create a b).1).strings o ≡ some t

  pub record Built (api : BuilderApi) : Type 0 where
    pub written : api.Builder → Written
    -- The object that is being built.
    pub fields : api.Builder → Object
    -- The bytes of a text
    pub utf8 : String → Bytes
    pub byte_strings : Creates api written (λ s. s) api.create_byte_string
    pub byte_vectors : Creates api written (λ s. s) api.create_byte_vector
    pub texts : Creates api written utf8 api.create_string
    pub written-start : (n : ℕ) (b : api.Builder) → written (api.start_object n b) ≡ written b
    pub fields-start : (n k : ℕ) (b : api.Builder) → fields (api.start_object n b) k ≡ none
    pub written-offset :
        (k o : ℕ) (b : api.Builder) → written (api.prepend_uoffset_slot k o 0 b) ≡ written b
    pub fields-offset :
        (k o j : ℕ) (b : api.Builder)
        → ◌≢◌ o 0
        → fields (api.prepend_uoffset_slot k o 0 b) j ≡ (if j == k then some (at o) else fields b j)
    pub written-float :
        (k x : ℕ) (b : api.Builder) → written (api.prepend_float32_slot k x 0 b) ≡ written b
    pub fields-float :
        (k x j : ℕ) (b : api.Builder)
        → fields (api.prepend_float32_slot k x 0 b) j
          ≡ (if is_zero x then fields b j else if j == k then some (float x) else fields b j)
    pub written-uint32 :
        (k x : ℕ) (b : api.Builder) → written (api.prepend_uint32_slot k x 0 b) ≡ written b
    pub fields-uint32 :
        (k x j : ℕ) (b : api.Builder)
        → fields (api.prepend_uint32_slot k x 0 b) j
          ≡ (if x == 0 then fields b j else if j == k then some (uint32 x) else fields b j)
    pub written-byte :
        (k x : ℕ) (b : api.Builder) → written (api.prepend_byte_slot k x 0 b) ≡ written b
    pub fields-byte :
        (k x j : ℕ) (b : api.Builder)
        → fields (api.prepend_byte_slot k x 0 b) j
          ≡ (if x == 0 then fields b j else if j == k then some (byte x) else fields b j)
    pub written-int64 :
        (k x : ℕ) (b : api.Builder) → written (api.prepend_int64_slot k x 0 b) ≡ written b
    pub fields-int64 :
        (k x j : ℕ) (b : api.Builder)
        → fields (api.prepend_int64_slot k x 0 b) j
          ≡ (if x == 0 then fields b j else if j == k then some (int64 x) else fields b j)
    pub strings-end :
        (o : ℕ) (s : Bytes) (b : api.Builder)
        → (written b).strings o ≡ some s
        → (written (api.end_object b).1).strings o ≡ some s
    pub objects-end :
        (o : ℕ) (f : Object) (b : api.Builder)
        → (written b).objects o ≡ some f
        → (written (api.end_object b).1).objects o ≡ some f
    pub ended :
        (b : api.Builder)
        → (written (api.end_object b).1).objects (api.end_object b).0 ≡ some (fields b)
    pub ended_not_zero : (b : api.Builder) → ◌≢◌ (api.end_object b).0 0
    -- A finished message is read as the object at the offset that was finished.
    pub finished :
        (b : api.Builder) (o : ℕ) (f : Object)
        → (written b).objects o ≡ some f
        → let bytes = api.finished_bytes (api.finish_size_prefixed o b) in
          (ltb (length bytes) fb.size_uint32 ≡ false)
          × ((n : ℕ) × ((fb.get_uoffset (drop fb.size_uint32 bytes) ≡ ok n)
                × ((k : ℕ)
                    → k < 64
                    → let t : Table = record {
                      bytes = bytes;
                      pos = uoffset (n + fb.size_uint32);
                    } in
                      Reads (written b) t k (f k)
                      × ((o : ℕ) → f k ≡ some (at o) → ReadsObject (written b) t k o))))
