-- ===== src/Recorder/Frames.antt =====
-- A message of the recorder, as the node that reads it first on a stream stores it.
use mathlib.Core.Path.{subst, ap₂}
use libp2p_experiment.Base.{
  ℕ, suc, ◌+◌, ◌<◌, ◌^◌, ◌≡◌, ◌≢◌, refl, ap, ◌∙◌, String, some, [], ◌∷◌, ◌++◌, length,
  length-append, get_elem?, arith, nat_eq, sym, String,
}
use libp2p_experiment.Base.Effects.{ok, Exec}
use libp2p_experiment.Os.{Bytes, FilePath, Fs, dir, file, stat}
use libp2p_experiment.Os.Laws.{Healthy, NoFileOn}
use libp2p_experiment.Wire.{End}
use libp2p_experiment.Wire.Frames.{stream}
use libp2p_experiment.FlatBuffers.{FlatBuffers, BuilderApi, SizePrefix, Table}
use libp2p_experiment.FlatBuffers.Built.{Built, at, int64, Reads, ReadsBytes}
use libp2p_experiment.FlatBuffers.Framed.{Framed}
use libp2p_experiment.FlatBuffers.Slots.{Slots, filled, fields-filled, written-filled}
use libp2p_experiment.Posemesh.{get_root_as}
use libp2p_experiment.Posemesh.Image
use libp2p_experiment.Posemesh.Reading.{ended, message-ReadsBare}
use libp2p_experiment.Utils.Frame.{load_frame_from_stream}
use libp2p_experiment.Utils.Frame.Stored.{frame_bytes, load_frame_from_stream-stored}
use libp2p_experiment.Recorder.{image_message}

module _ (fb : FlatBuffers) (image : Table) where
  frame_bytes_from :
      (xs : Bytes) (i : ℕ)
      → ((j : ℕ) → j < length xs → some (Image.frame fb image (i + j)) ≡ get_elem? xs j)
      → frame_bytes fb (length xs) i image ≡ xs
  frame_bytes_from [] i h = refl
  frame_bytes_from (x ∷ xs) i h =
      let first : some (Image.frame fb image i) ≡ some x =
        ap (λ k. some (Image.frame fb image k)) {x = i} {y = i + 0} (omega arith)
        ∙ h 0 (omega arith) in
      let next = frame_bytes_from xs (suc i) (λ j l.
        ap (λ k. some (Image.frame fb image k)) {x = suc i + j} {y = i + suc j} (omega arith)
        ∙ h (suc j) (omega arith)) in
      ap₂ ◌∷◌ (cc) next

  -- Of an image whose frame holds these bytes.
  frame_bytes-ReadsBytes :
      (frame : Bytes)
      → length frame < 2 ^ 24
      → ReadsBytes fb image (fb.offset image 6) frame
      → frame_bytes fb (Image.frame_length fb image) 0 image ≡ frame
  unfolding Image.frame Image.frame_length
  frame_bytes-ReadsBytes frame h r =
      let n : Image.frame_length fb image ≡ length frame =
        ground (arith, r.present, r.content_length) in
      ap (λ k. frame_bytes fb k 0 image) n
      ∙ frame_bytes_from frame 0 (λ j l. ground (arith, r.present, r.octet j l h))

-- The message of one frame, one builder call after the other.
module _ (fb : FlatBuffers) (api : BuilderApi) (B : Built fb api) (time : ℕ)
    (captured : Bytes) where
  open api use {Builder, new_builder, create_byte_vector, start_object}

  abbrev with_frame : Builder
  with_frame = (create_byte_vector captured new_builder).1

  abbrev frame_offset : ℕ
  frame_offset = (create_byte_vector captured new_builder).0

  abbrev slots : Slots
  slots = (1, at frame_offset) ∷ (0, int64 time) ∷ []

  abbrev image : Builder
  image = filled api slots (start_object 2 with_frame)

  frame_field : B.fields image 1 ≡ some (at frame_offset)
  frame_field =
      let there = B.byte_vectors.created_not_zero captured new_builder in
      ground (arith, there, fields-filled fb api B slots (start_object 2 with_frame) 1 (there, tt))

  time_field : ◌≢◌ time 0 → B.fields image 0 ≡ some (int64 time)
  time_field some_time =
      let there = B.byte_vectors.created_not_zero captured new_builder in
      ground (
        arith,
        some_time,
        there,
        fields-filled fb api B slots (start_object 2 with_frame) 0 (there, tt),
      )

  frame_held : (B.written (ended fb api B image)).strings frame_offset ≡ some captured
  frame_held = B.strings-end frame_offset captured image (
      ap (λ w. w.strings frame_offset)
        (written-filled fb api B slots (start_object 2 with_frame) ∙ B.written-start 2 with_frame)
      ∙ B.byte_vectors.created captured new_builder)

  -- What the node that gets the stream makes of the message.
  pub record Shown (P : SizePrefix fb) (buf : Bytes) (t : Table) : Type 0 where
    pub with_size : image_message api time captured ≡ P.prefix (length buf) ++ buf
    pub readable : get_root_as fb buf 0 ≡ ok t
    pub same_time : Image.timestamp_text fb t ≡ fb.int64_text time
    pub same_frame : frame_bytes fb (Image.frame_length fb t) 0 t ≡ captured

  image_message-Shown :
      (P : SizePrefix fb)
      → Framed fb api B P
      → ◌≢◌ time 0
      → length captured < 2 ^ 24
      → (buf : Bytes) × ((t : Table) × Shown P buf t)
  unfolding image_message Image.timestamp_text
  image_message-Shown P F some_time h =
      let (buf, (t, r)) = message-ReadsBare fb api B image P F in
      let w = B.written (ended fb api B image) in
      let content =
        subst (Reads fb w t 1) frame_field (r.contents.field 1 (omega arith)) captured frame_held in
      let stamp =
        subst (Reads fb w t 0) (time_field some_time) (r.contents.field 0 (omega arith)) in
      (
        buf,
        (
          t,
          record {
            with_size = r.with_size;
            readable = r.readable;
            same_time = ground (arith, stamp.0, stamp.1);
            same_frame = frame_bytes-ReadsBytes fb t captured h content;
          },
        ),
      )

  -- What the node has on its disk when its callback gets the image.
  pub record Stored {S : Type 0} (base : FilePath) (on_image : Table → Exec (Fs × S) (Unit {0}))
      (rest : Bytes) (e : End) (s : Fs) (x : S) (t : Table) (d : Fs) : Type 0 where
    pub runs :
        load_frame_from_stream fb base on_image
          (stream (image_message api time captured ++ rest) e)
          (s, x)
        ≡ on_image t (d, x)
    pub kept : stat (fb.int64_text time ∷ "images" ∷ base) d ≡ some (file captured)

  -- The first message of a frame on a stream, once its bytes are there, is stored as the frame was
  -- captured: whatever follows on the stream is left unread, and the callback of the node gets an image
  -- when the disk has a file, named by the time that the recorder put into the message, that holds the
  -- bytes of the frame and nothing else. The time is not 0, the frame has less than 2 ^ 24 bytes and
  -- the message less than 2 ^ 32, nothing on the disk is refused, no file is in the way of the
  -- directory and no directory has the name of a file; the builder and the tables of FlatBuffers are
  -- lawful.
  pub load_frame_from_stream-image_message :
      (P : SizePrefix fb) (base : FilePath) {S : Type 0}
      (on_image : Table → Exec (Fs × S) (Unit {0})) (rest : Bytes) (e : End) (s : Fs) (x : S)
      → Framed fb api B P
      → ◌≢◌ time 0
      → length captured < 2 ^ 24
      → length (image_message api time captured) < 2 ^ 32
      → Healthy s
      → NoFileOn ("images" ∷ base) s
      → ((n : String) → stat (n ∷ "images" ∷ base) s ≢ some dir)
      → (t : Table) × ((d : Fs) × Stored base on_image rest e s x t d)
  load_frame_from_stream-image_message P base on_image rest e s x F some_time h l healthy free
        no_dir =
      let (buf, (t, r)) = image_message-Shown P F some_time h in
      let (d, runs, holds) =
        load_frame_from_stream-stored fb P base on_image buf rest e t s x
          (omega (arith, l, ap length r.with_size, length-append (P.prefix (length buf)) buf))
          r.readable healthy free (no_dir (Image.timestamp_text fb t)) in
      (
        t,
        (
          d,
          record {
            runs =
                ap
                  (λ (m : Bytes).
                    load_frame_from_stream fb base on_image (stream (m ++ rest) e) (s, x))
                  r.with_size
                ∙ runs;
            kept =
                ap (λ (n : String). stat (n ∷ "images" ∷ base) d) (sym r.same_time)
                ∙ holds
                ∙ ap (λ (bs : Bytes). some (file bs)) r.same_frame;
          },
        ),
      )
