-- ===== src/Posemesh/Pose.antt =====
-- Libposemesh/Pose.go: a position and a rotation, in bits of floats.
use libp2p_experiment.Base.{ℕ, ◌+◌, if◌then◌else◌, ◌==◌, nat_eq}
use libp2p_experiment.Os.{Bytes}
use libp2p_experiment.FlatBuffers.{FlatBuffers, Table, uoffset}
use libp2p_experiment.Posemesh.{bytes_field}

module _ (fb : FlatBuffers) where
  -- A float in a slot; the bits of 0.0 where the field is absent.
  unfoldable pub float_field : ℕ → Table → ℕ
  float_field slot t =
      let o = fb.offset t slot in if o == 0 then 0 else fb.get_float32 t (uoffset (o + t.pos))

  unfoldable pub px : Table → ℕ
  unfolding float_field
  px = float_field 4

  unfoldable pub py : Table → ℕ
  unfolding float_field
  py = float_field 6

  unfoldable pub pz : Table → ℕ
  unfolding float_field
  pz = float_field 8

  unfoldable pub rx : Table → ℕ
  unfolding float_field
  rx = float_field 10

  unfoldable pub ry : Table → ℕ
  unfolding float_field
  ry = float_field 12

  unfoldable pub rz : Table → ℕ
  unfolding float_field
  rz = float_field 14

  unfoldable pub rw_field : Table → ℕ
  unfolding float_field
  rw_field = float_field 16

  unfoldable pub short_id : Table → Bytes
  unfolding bytes_field
  short_id = bytes_field fb 18
