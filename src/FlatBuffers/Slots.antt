-- ===== src/FlatBuffers/Slots.antt =====
-- The fields of an object that a builder fills, slot by slot.
use libp2p_experiment.Base.{
  ℕ, ◌≡◌, ◌≢◌, refl, ◌∙◌, Bool, Option, some, List, [], ◌∷◌, if◌then◌else◌, ◌==◌, nat_eq, arith,
}
use libp2p_experiment.FlatBuffers.{FlatBuffers, BuilderApi}
use libp2p_experiment.FlatBuffers.Built.{Built, Field, at, float, uint32, int64, byte, is_zero}

-- What is left out since it is the default.
abbrev pub is_default : Field → Bool
is_default (at o) = o == 0
is_default (float x) = is_zero x
is_default (uint32 x) = x == 0
is_default (int64 x) = x == 0
is_default (byte x) = x == 0

abbrev pub Slots : Type 0
Slots = List (ℕ × Field)

-- No offset is 0.
abbrev pub Fits : Slots → Type 0
Fits [] = Unit
Fits ((k, at o) ∷ fs) = ◌≢◌ o 0 × Fits fs
Fits ((k, float x) ∷ fs) = Fits fs
Fits ((k, uint32 x) ∷ fs) = Fits fs
Fits ((k, int64 x) ∷ fs) = Fits fs
Fits ((k, byte x) ∷ fs) = Fits fs

-- The field in the slot `j`, over what was there.
abbrev pub value : Slots → ℕ → Option Field → Option Field
value [] j old = old
value ((k, f) ∷ fs) j old =
    if is_default f then value fs j old else if j == k then some f else value fs j old

module _ (api : BuilderApi) where
  abbrev pub put : ℕ → Field → api.Builder → api.Builder
  put k (at o) b = api.prepend_uoffset_slot k o 0 b
  put k (float x) b = api.prepend_float32_slot k x 0 b
  put k (uint32 x) b = api.prepend_uint32_slot k x 0 b
  put k (int64 x) b = api.prepend_int64_slot k x 0 b
  put k (byte x) b = api.prepend_byte_slot k x 0 b

  -- The last slot of the list is filled first.
  abbrev pub filled : Slots → api.Builder → api.Builder
  filled [] b = b
  filled ((k, f) ∷ fs) b = put k f (filled fs b)

module _ (fb : FlatBuffers) (api : BuilderApi) (B : Built fb api) where
  pub written-filled : (fs : Slots) (b : api.Builder) → B.written (filled api fs b) ≡ B.written b
  written-filled [] b = refl
  written-filled ((k, at o) ∷ fs) b = B.written-offset k o (filled api fs b) ∙ written-filled fs b
  written-filled ((k, float x) ∷ fs) b = B.written-float k x (filled api fs b) ∙ written-filled fs b
  written-filled ((k, uint32 x) ∷ fs) b =
      B.written-uint32 k x (filled api fs b) ∙ written-filled fs b
  written-filled ((k, int64 x) ∷ fs) b = B.written-int64 k x (filled api fs b) ∙ written-filled fs b
  written-filled ((k, byte x) ∷ fs) b = B.written-byte k x (filled api fs b) ∙ written-filled fs b

  pub fields-filled :
      (fs : Slots) (b : api.Builder) (j : ℕ)
      → Fits fs
      → B.fields (filled api fs b) j ≡ value fs j (B.fields b j)
  fields-filled [] b j h = refl
  fields-filled ((k, at o) ∷ fs) b j h =
      ground (arith, h.0, B.fields-offset k o j (filled api fs b) h.0, fields-filled fs b j h.1)
  fields-filled ((k, float x) ∷ fs) b j h =
      ground (arith, B.fields-float k x j (filled api fs b), fields-filled fs b j h)
  fields-filled ((k, uint32 x) ∷ fs) b j h =
      ground (arith, B.fields-uint32 k x j (filled api fs b), fields-filled fs b j h)
  fields-filled ((k, int64 x) ∷ fs) b j h =
      ground (arith, B.fields-int64 k x j (filled api fs b), fields-filled fs b j h)
  fields-filled ((k, byte x) ∷ fs) b j h =
      ground (arith, B.fields-byte k x j (filled api fs b), fields-filled fs b j h)
