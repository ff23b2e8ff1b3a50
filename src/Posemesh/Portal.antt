-- ===== src/Posemesh/Portal.antt =====
-- Libposemesh/Portal.go.
use libp2p_experiment.Base.{ℕ, ◌+◌, if◌then◌else◌, ◌==◌, nat_eq}
use libp2p_experiment.Os.{Bytes}
use libp2p_experiment.FlatBuffers.{FlatBuffers, Table, uoffset}
use libp2p_experiment.Posemesh.{bytes_field}

module _ (fb : FlatBuffers) where
  unfoldable pub default_name : Table → Bytes
  unfolding bytes_field
  default_name = bytes_field fb 4

  -- The bits of the float; those of 0.0 where the field is absent.
  unfoldable pub size : Table → ℕ
  size t = let o = fb.offset t 6 in if o == 0 then 0 else fb.get_float32 t (uoffset (o + t.pos))

  unfoldable pub short_id : Table → Bytes
  unfolding bytes_field
  short_id = bytes_field fb 8
