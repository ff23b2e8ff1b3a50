-- ===== src/Posemesh/Image.antt =====
-- Libposemesh/Image.go: a frame with its time.
use libp2p_experiment.Base.{ℕ, ◌+◌, String, if◌then◌else◌, ◌==◌, nat_eq}
use libp2p_experiment.FlatBuffers.{FlatBuffers, Table, uoffset}

module _ (fb : FlatBuffers) where
  -- `Timestamp()`, as `%d` prints it
  unfoldable pub timestamp_text : Table → String
  timestamp_text t =
      let o = fb.offset t 4 in if o == 0 then "0" else fb.get_int64_text t (uoffset (o + t.pos))

  -- `byte(Frame(j))`
  unfoldable pub frame : Table → ℕ → ℕ
  frame t j =
      let o = fb.offset t 6 in
      if o == 0 then 0 else fb.get_int8_byte t (uoffset (fb.vector t o + uoffset j))

  unfoldable pub frame_length : Table → ℕ
  frame_length t = let o = fb.offset t 6 in if o == 0 then 0 else fb.vector_len t o
