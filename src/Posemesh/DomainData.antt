-- ===== src/Posemesh/DomainData.antt =====
-- Libposemesh/DomainData.go and AnyDomainData.go.
use libp2p_experiment.Base.{
  ℕ, ◌+◌, ◌/◌, ◌%◌, String, ◌<>◌, Option, none, some, [], ◌∷◌, ltb, get_elem?, if◌then◌else◌, ◌==◌,
  nat_eq,
}
use libp2p_experiment.Os.{Bytes}
use libp2p_experiment.FlatBuffers.{FlatBuffers, Table, uoffset}
use libp2p_experiment.Posemesh.{bytes_field}

abbrev pub any_domain_data_none : ℕ
any_domain_data_none = 0

abbrev pub any_domain_data_generic_domain_data : ℕ
any_domain_data_generic_domain_data = 1

abbrev pub any_domain_data_partition : ℕ
any_domain_data_partition = 2

abbrev pub any_domain_data_pose : ℕ
any_domain_data_pose = 3

-- `EnumNamesAnyDomainData`
unfoldable pub enum_names : ℕ → Option String
enum_names v =
    if v == any_domain_data_none
    then some "NONE"
    else if v == any_domain_data_generic_domain_data
    then some "GenericDomainData"
    else if v == any_domain_data_partition
    then some "Partition"
    else if v == any_domain_data_pose
    then some "Pose"
    else none

-- `strconv.FormatInt(int64(v), 10)` for a byte
abbrev digit : ℕ → String
digit d =
    elim (get_elem? {A = String} ("0" ∷ "1" ∷ "2" ∷ "3" ∷ "4" ∷ "5" ∷ "6" ∷ "7" ∷ "8" ∷ "9" ∷ [])
      (d % 10)) [ some s ↦ s | none ↦ "" ]

unfoldable pub format_byte : ℕ → String
format_byte v =
    if ltb v 10
    then digit v
    else if ltb v 100
    then digit (v / 10) <> digit v
    else digit (v / 100) <> digit (v / 10) <> digit v

-- `AnyDomainData.String()`
unfoldable pub type_string : ℕ → String
unfolding enum_names format_byte
type_string v = elim (enum_names v) [ some s ↦ s | none ↦ "AnyDomainData(" <> format_byte v <> ")" ]

module _ (fb : FlatBuffers) where
  unfoldable pub data_offset : Table → ℕ
  data_offset t =
      let o = fb.offset t 4 in if o == 0 then 0 else fb.get_uint32 t (uoffset (o + t.pos))

  unfoldable pub domain_id : Table → Bytes
  unfolding bytes_field
  domain_id = bytes_field fb 8

  unfoldable pub name : Table → Bytes
  unfolding bytes_field
  name = bytes_field fb 10

  unfoldable pub version : Table → Bytes
  unfolding bytes_field
  version = bytes_field fb 12

  unfoldable pub data_type : Table → ℕ
  data_type t = let o = fb.offset t 14 in if o == 0 then 0 else fb.get_byte t (uoffset (o + t.pos))

  -- `Data(obj)`: the table of the union member, if the field is there.
  unfoldable pub union_data : Table → Option Table
  union_data t = let o = fb.offset t 16 in if o == 0 then none else some (fb.union t o)
