-- ===== src/Utils/Frame/Stored.antt =====
-- The file that an image leaves.
use libp2p_experiment.Base.{
  ℕ, zero, suc, ◌<◌, ◌^◌, ◌≡◌, refl, ap, sym, ◌≢◌, String, some, [], ◌∷◌, ◌++◌, length,
}
use mathlib.Core.Path.{subst}
use mathlib.Core.List.{append_assoc, append-nil}
use libp2p_experiment.Base.Effects.{Result, ok, Exec, lift, ◌>>◌, >>=-ok, then_ok}
use libp2p_experiment.Os.{Bytes, FilePath, Fs, dir, file, stat, put, mkdir_all, create, write}
use libp2p_experiment.Os.Laws.{
  Healthy, NoFileOn, mkdir_all-Healthy, stat-put_self, put-Healthy, write_total,
}
use libp2p_experiment.Os.Saving.{saves}
use libp2p_experiment.FlatBuffers.{FlatBuffers, Table, SizePrefix}
use libp2p_experiment.Posemesh.{get_root_as}
use libp2p_experiment.Posemesh.Image
use libp2p_experiment.Wire.{End}
use libp2p_experiment.Wire.Frames.{stream, sized, read_frame-sized}
use libp2p_experiment.Utils.Receive.{on_fs}
use libp2p_experiment.Utils.Frame.{write_frame, store_image, load_frame_from_stream}

module _ (fb : FlatBuffers) where
  -- The bytes of the frame, from one on.
  abbrev pub frame_bytes : ℕ → ℕ → Table → Bytes
  frame_bytes zero i image = []
  frame_bytes (suc left) i image = Image.frame fb image i ∷ frame_bytes left (suc i) image

  -- What the loop over the bytes does to the file.
  pub record Written (p : FilePath) (bytes : Bytes) (r : Result (Unit {0}) × Fs) : Type 0 where
    pub succeeds : r.0 ≡ ok tt
    pub holds : stat p r.1 ≡ some (file bytes)
    pub healthy : Healthy r.1

  module _ (base : FilePath) (n : String) (q : FilePath) (image : Table) where
    write_frame-Written :
        (left i : ℕ) (old : Bytes) (s : Fs)
        → Healthy s
        → stat (n ∷ q) s ≡ some (file old)
        → Written
            (n ∷ q)
            (old ++ frame_bytes left i image)
            (write_frame fb base left i (n ∷ q) image s)
    unfolding write_frame
    write_frame-Written zero i old s healthy there = record {
      succeeds = refl;
      holds = rw append-nil there;
      healthy = healthy;
    }
    write_frame-Written (suc left) i old s healthy there =
        let b = Image.frame fb image i in
        let s' = put (n ∷ q) (file (old ++ b ∷ [])) s in
        let ih =
          write_frame-Written left (suc i) (old ++ b ∷ []) s' (put-Healthy (n ∷ q) _ s healthy)
            (stat-put_self n q _ s) in
        let step = write_total (n ∷ q) (b ∷ []) old s (healthy (n ∷ q)).1 there in
        subst
          (λ x.
            Written (n ∷ q) x
              ((write (n ∷ q) (b ∷ []) >> write_frame fb base left (suc i) (n ∷ q) image) s))
          (append_assoc old (b ∷ []) (frame_bytes left (suc i) image))
          (subst (Written (n ∷ q) ((old ++ b ∷ []) ++ frame_bytes left (suc i) image))
            (sym (>>=-ok (write (n ∷ q) (b ∷ [])) _ s step)) ih)

  module _ (base : FilePath) (image : Table) (s : Fs) where
    abbrev images : FilePath
    images = "images" ∷ base

    store_image-Written :
        Healthy s
        → NoFileOn ("images" ∷ base) s
        → stat (Image.timestamp_text fb image ∷ "images" ∷ base) s ≢ some dir
        → Written
            (Image.timestamp_text fb image ∷ "images" ∷ base)
            (frame_bytes (Image.frame_length fb image) 0 image)
            (store_image fb base image s)
    unfolding store_image
    store_image-Written healthy free no_dir =
        let n = Image.timestamp_text fb image in
        let v = saves n images [] s healthy free no_dir in
        let rest = write_frame fb base (Image.frame_length fb image) 0 (n ∷ images) image in
        let run =
          then_ok (mkdir_all images) (λ _. create n images >> rest) s v.makes
            (>>=-ok (create n images) (λ _. rest) _ v.creates) in
        subst (Written (n ∷ images) (frame_bytes (Image.frame_length fb image) 0 image)) (sym run) (
          write_frame-Written base n images image (Image.frame_length fb image) 0 [] _
            (put-Healthy (n ∷ images) _ _ (mkdir_all-Healthy images s healthy))
            (stat-put_self n images (file []) _))

-- An image that arrives is on the disk when the callback gets it: where a stream begins with a whole
-- message that can be read, and nothing on the disk is refused or in the way, the callback runs on
-- the image and on a disk where the file named by the time of the image holds the bytes of its
-- frame, in order and nothing else. Nothing else of the stream is read.
pub load_frame_from_stream-stored :
    (fb : FlatBuffers) (P : SizePrefix fb) (base : FilePath) {S : Type 0}
    (on_image : Table → Exec (Fs × S) (Unit {0})) (b rest : Bytes) (e : End) (image : Table)
    (s : Fs) (x : S)
    → length b < 2 ^ 32
    → get_root_as fb b 0 ≡ ok image
    → Healthy s
    → NoFileOn ("images" ∷ base) s
    → stat (Image.timestamp_text fb image ∷ "images" ∷ base) s ≢ some dir
    → (t : Fs) × (load_frame_from_stream fb base on_image (stream (sized fb P b ++ rest) e) (s, x)
        ≡ on_image image (t, x))
      × (stat (Image.timestamp_text fb image ∷ "images" ∷ base) t
          ≡ some (file (frame_bytes fb (Image.frame_length fb image) 0 image)))
unfolding load_frame_from_stream
load_frame_from_stream-stored fb P base on_image b rest e image s x fits root healthy free no_dir =
    let w = store_image-Written fb base image s healthy free no_dir in
    let t = (store_image fb base image s).1 in
    let run =
      then_ok (lift (get_root_as fb b 0)) (λ i. on_fs (store_image fb base i) >> on_image i) (s, x)
        (ap (λ r. (r, (s, x))) root)
        (>>=-ok (on_fs (store_image fb base image)) (λ _. on_image image) (s, x)
          (ap (λ r. (r, (t, x))) w.succeeds)) in
    (t, rw (read_frame-sized fb P b rest e fits, load_frame_from_stream) run, w.holds)
