-- ===== src/Programs/Vision.antt =====
-- example/salvia/main.go and example/cbd/main.go: what the two nodes answer to an image. `floats` are
-- the bits of the random numbers, in the order of the calls; the state is what was written back.
pub mod PoseRead
use libp2p_experiment.Base.{ℕ, suc, List, [], ◌∷◌, ◌++◌}
use libp2p_experiment.Base.Effects.{Result, ok, err, crash, Exec}
use libp2p_experiment.Os.{Bytes, FilePath, Fs}
use libp2p_experiment.FlatBuffers.{FlatBuffers, BuilderApi}
use libp2p_experiment.Wire.{Stream}
use libp2p_experiment.Utils.Frame.{load_frame_from_stream}

-- `s.Write`, whose error is only logged.
unfoldable pub write_back : (Bytes → Result (Unit {0})) → Bytes → Exec (Fs × List Bytes) (Unit {0})
write_back write bytes (fs, sent) = elim (write bytes) [
  | ok _ ↦ (ok tt, (fs, sent ++ bytes ∷ []))
  | err _ ↦ (ok tt, (fs, sent))
  | crash m ↦ (crash m, (fs, sent))
]

module _ (api : BuilderApi) where
  open api use {Builder, start_object, end_object, prepend_float32_slot, new_builder}

  -- The slots of the generated `PoseAdd…`, one number after the other.
  unfoldable pub add_floats : ℕ → List ℕ → Builder → Builder
  add_floats i [] b = b
  add_floats i (x ∷ xs) b = add_floats (suc i) xs (prepend_float32_slot i x 0 b)

  unfoldable pub pose_message : ℕ → ℕ → ℕ → ℕ → ℕ → ℕ → ℕ → Bytes
  unfolding add_floats
  pose_message px py pz rx ry rz rot =
      let b = add_floats 0 (px ∷ py ∷ pz ∷ rx ∷ ry ∷ rz ∷ rot ∷ []) (start_object 8 new_builder) in
      let (pose, b') = end_object b in api.finished_bytes (api.finish_size_prefixed pose b')

  -- The handler of images of the Salvia node.
  unfoldable pub on_upload_image :
      FlatBuffers
      → (ℕ → ℕ)
      → (Bytes → Result (Unit {0}))
      → FilePath
      → Stream
      → Exec (Fs × List Bytes) (Unit {0})
  unfolding pose_message write_back
  on_upload_image fb floats write base s =
      load_frame_from_stream fb base
        (λ image. write_back write (
          pose_message (floats 0) (floats 1) (floats 2) (floats 3) (floats 4) (floats 5)
            (floats 6)))
        s

-- The handler of the CBD node: `unfinished` is what `FinishedBytes` gives on a new builder.
unfoldable pub on_task_image :
    FlatBuffers
    → Result Bytes
    → (Bytes → Result (Unit {0}))
    → FilePath
    → Stream
    → Exec (Fs × List Bytes) (Unit {0})
unfolding write_back
on_task_image fb unfinished write base s =
    load_frame_from_stream fb base
      (λ image. elim unfinished [
        | ok bytes ↦ write_back write bytes
        | err e ↦ (λ w. (err e, w))
        | crash m ↦ (λ w. (crash m, w))
      ])
      s
