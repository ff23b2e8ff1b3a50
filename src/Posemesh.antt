-- ===== src/Posemesh.antt =====
-- Libposemesh: the accessors that the FlatBuffers compiler generated for the messages.
pub mod Partition
pub mod DomainData
pub mod Image
pub mod Portal
pub mod Domain
pub mod Request
pub mod Reading
pub mod Pose
pub mod Job
pub mod DomainServer
pub mod Transfer
pub mod GenericDomainData
pub mod Enums
pub mod Msg
pub mod NodeInfo
use libp2p_experiment.Base.{ℕ, ◌+◌, [], ltb, length, drop, if◌then◌else◌, ◌==◌, nat_eq}
use libp2p_experiment.Base.Effects.{Result, ok, err, crash}
use libp2p_experiment.Os.{Bytes}
use libp2p_experiment.FlatBuffers.{FlatBuffers, Table, uoffset}

module _ (fb : FlatBuffers) where
  -- `GetRootAs…(buf, offset)`: every message type has this function under its own name.
  unfoldable pub get_root_as : Bytes → ℕ → Result Table
  get_root_as buf offset =
      if ltb (length buf) offset
      then crash "slice bounds out of range"
      else elim (fb.get_uoffset (drop offset buf)) [
        | ok n ↦ ok (record { bytes = buf; pos = uoffset (n + offset) })
        | err e ↦ err e
        | crash m ↦ crash m
      ]

  -- `GetSizePrefixedRootAs…(buf, offset)`
  unfoldable pub get_size_prefixed_root_as : Bytes → ℕ → Result Table
  get_size_prefixed_root_as buf offset =
      if ltb (length buf) (offset + fb.size_uint32)
      then crash "slice bounds out of range"
      else elim (fb.get_uoffset (drop (offset + fb.size_uint32) buf)) [
        | ok n ↦ ok (record { bytes = buf; pos = uoffset (n + offset + fb.size_uint32) })
        | err e ↦ err e
        | crash m ↦ crash m
      ]

  -- A field of type `string`: its bytes, or nothing where the field is absent.
  unfoldable pub bytes_field : ℕ → Table → Bytes
  bytes_field slot t =
      let o = fb.offset t slot in if o == 0 then [] else fb.byte_vector t (uoffset (o + t.pos))
