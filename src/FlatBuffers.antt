-- ===== src/FlatBuffers.antt =====
-- What the program and its generated code use of the Go package of FlatBuffers, which is not in the
-- repository. A table is a buffer and a position in it, as the generated `Init` sets them.
pub mod Built
pub mod Framed
pub mod Slots
use libp2p_experiment.Base.{
  ℕ, ◌+◌, ◌<◌, ◌%◌, ◌^◌, ◌≡◌, String, Bool, length, if◌then◌else◌, ◌==◌, nat_eq,
}
use libp2p_experiment.Base.Effects.{Result}
use libp2p_experiment.Os.{Bytes}

pub record Table : Type 0 where
  pub bytes : Bytes
  pub pos : ℕ

-- `UOffsetT` is a `uint32`.
abbrev pub uoffset : ℕ → ℕ
uoffset n = n % 2 ^ 32

pub record FlatBuffers : Type 0 where
  -- `SizeUOffsetT`, `SizeUint32`, `GetSizePrefix(buf, 0)`
  pub size_uoffset : ℕ
  pub size_uint32 : ℕ
  pub get_size_prefix : Bytes → ℕ
  -- `GetUOffsetT(buf)`, which panics on a buffer that is too short
  pub get_uoffset : Bytes → Result ℕ
  -- `_tab.Offset(vtableOffset)`: where a field stands in the table, 0 if it is absent
  pub offset : Table → ℕ → ℕ
  pub byte_vector : Table → ℕ → Bytes
  pub vector : Table → ℕ → ℕ
  pub vector_len : Table → ℕ → ℕ
  pub union : Table → ℕ → Table
  pub indirect : Table → ℕ → ℕ
  pub get_bool : Table → ℕ → Bool
  pub mutate_bool : Table → ℕ → Bool → Bool × Table
  pub get_byte : Table → ℕ → ℕ
  pub get_uint32 : Table → ℕ → ℕ
  -- `GetFloat32`, as its bits
  pub get_float32 : Table → ℕ → ℕ
  -- `GetInt64`, as `%d` prints it, and `byte(GetInt8(…))`
  pub get_int64_text : Table → ℕ → String
  -- `%d` of the number whose 64 bits these are
  pub int64_text : ℕ → String
  -- `GetInt32`, as `%d` prints it
  pub get_int32_text : Table → ℕ → String
  pub get_int8_byte : Table → ℕ → ℕ
  -- Go's conversion of a byte slice to a string
  pub text : Bytes → String

-- The size prefix: what a builder writes in front of a message of at most 2 ^ 32 - 1 bytes is read
-- back as its length.
pub record SizePrefix (fb : FlatBuffers) : Type 0 where
  pub prefix : ℕ → Bytes
  pub nonempty : 0 < fb.size_uoffset
  pub length-prefix : (n : ℕ) → length (prefix n) ≡ fb.size_uoffset
  pub get-prefix : (n : ℕ) → n < 2 ^ 32 → fb.get_size_prefix (prefix n) ≡ n

-- Writing the element `j` of the vector of Booleans in a slot changes that element, and no other
-- thing that the accessors of the vector read.
pub record MutateLaws (fb : FlatBuffers) (slot : ℕ) : Type 0 where
  pub same-offset :
      (t : Table) (j : ℕ) (b : Bool)
      → j < fb.vector_len t (fb.offset t slot)
      → fb.offset (fb.mutate_bool t (uoffset (fb.vector t (fb.offset t slot) + uoffset j)) b).1 slot
        ≡ fb.offset t slot
  pub same-vector_len :
      (t : Table) (j : ℕ) (b : Bool)
      → j < fb.vector_len t (fb.offset t slot)
      → fb.vector_len
          (fb.mutate_bool t (uoffset (fb.vector t (fb.offset t slot) + uoffset j)) b).1
          (fb.offset t slot)
        ≡ fb.vector_len t (fb.offset t slot)
  pub same-vector :
      (t : Table) (j : ℕ) (b : Bool)
      → j < fb.vector_len t (fb.offset t slot)
      → fb.vector
          (fb.mutate_bool t (uoffset (fb.vector t (fb.offset t slot) + uoffset j)) b).1
          (fb.offset t slot)
        ≡ fb.vector t (fb.offset t slot)
  pub get-mutate :
      (t : Table) (j k : ℕ) (b : Bool)
      → j < fb.vector_len t (fb.offset t slot)
      → k < fb.vector_len t (fb.offset t slot)
      → fb.get_bool
          (fb.mutate_bool t (uoffset (fb.vector t (fb.offset t slot) + uoffset j)) b).1
          (uoffset (fb.vector t (fb.offset t slot) + uoffset k))
        ≡ (if k == j
            then b
            else fb.get_bool t (uoffset (fb.vector t (fb.offset t slot) + uoffset k)))

-- The builder of a message. Its operations return the offset of what they wrote, or nothing.
pub record BuilderApi : Type 1 where
  pub Builder : Type 0
  pub new_builder : Builder
  -- `Reset`
  pub reset : Builder → Builder
  pub create_string : String → Builder → ℕ × Builder
  pub create_byte_string : Bytes → Builder → ℕ × Builder
  pub create_byte_vector : Bytes → Builder → ℕ × Builder
  pub start_vector : ℕ → ℕ → ℕ → Builder → Builder
  pub prepend_uoffset : ℕ → Builder → Builder
  pub end_vector : ℕ → Builder → ℕ × Builder
  pub start_object : ℕ → Builder → Builder
  pub end_object : Builder → ℕ × Builder
  pub prepend_uoffset_slot : ℕ → ℕ → ℕ → Builder → Builder
  pub prepend_uint32_slot : ℕ → ℕ → ℕ → Builder → Builder
  pub prepend_byte_slot : ℕ → ℕ → ℕ → Builder → Builder
  -- `PrependInt64Slot`, with the bits of the number
  pub prepend_int64_slot : ℕ → ℕ → ℕ → Builder → Builder
  pub prepend_float32_slot : ℕ → ℕ → ℕ → Builder → Builder
  pub builder_offset : Builder → ℕ
  pub finish_size_prefixed : ℕ → Builder → Builder
  pub finished_bytes : Builder → Bytes
