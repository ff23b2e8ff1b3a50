-- ===== src/Utils/Frame.antt =====
-- utils/frame.go: `LoadFrameFromStream` stores the first image of a stream in a file named by its
-- time, byte by byte, and hands it to a callback.
pub mod Stored
use libp2p_experiment.Base.{ℕ, zero, suc, [], ◌∷◌}
use libp2p_experiment.Base.Effects.{Exec, pure, raise, lift, ◌>>=◌, ◌>>◌}
use libp2p_experiment.Os.{FilePath, Fs, mkdir_all, create, write}
use libp2p_experiment.FlatBuffers.{FlatBuffers, Table}
use libp2p_experiment.Posemesh.{get_root_as}
use libp2p_experiment.Posemesh.Image
use libp2p_experiment.Wire.{Stream, frame, finished, broken, read_frame}
use libp2p_experiment.Utils.Receive.{on_fs}

module _ (fb : FlatBuffers) (base : FilePath) where
  -- The loop over the frame: `left` bytes from the one at `i` on.
  unfoldable pub write_frame : ℕ → ℕ → FilePath → Table → Exec Fs (Unit {0})
  write_frame zero i p image = pure tt
  write_frame (suc left) i p image =
      write p (Image.frame fb image i ∷ []) >> write_frame left (suc i) p image

  unfoldable pub store_image : Table → Exec Fs (Unit {0})
  unfolding write_frame
  store_image image = do
    mkdir_all ("images" ∷ base)
    let p = Image.timestamp_text fb image ∷ "images" ∷ base
    create (Image.timestamp_text fb image) ("images" ∷ base)
    write_frame (Image.frame_length fb image) 0 p image

  module _ {S : Type 0} (on_image : Table → Exec (Fs × S) (Unit {0})) where
    unfoldable pub load_frame_from_stream : Stream → Exec (Fs × S) (Unit {0})
    unfolding store_image
    load_frame_from_stream s = elim (read_frame fb s) [
      | finished ↦ pure tt
      | broken e ↦ raise e
      | frame _ buf _ ↦ (do
        image ← lift (get_root_as fb buf 0)
        on_fs (store_image image)
        on_image image)
    ]
