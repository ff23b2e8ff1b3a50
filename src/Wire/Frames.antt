-- ===== src/Wire/Frames.antt =====
-- Reading back what a sender of size-prefixed messages wrote, and where the reading ends.
use mathlib.Core.List.{append_assoc}
use libp2p_experiment.Base.{
  ℕ, ◌^◌, ◌≤◌, ◌<◌, ◌≡◌, refl, ◌∙◌, ap, List, [], ◌∷◌, ◌++◌, arith, length, take-append,
  drop-append, length-append, length-drop,
}
use libp2p_experiment.Base.Effects.{eof, unexpected_eof, wrapped, Result, ok, err, crash}
use libp2p_experiment.Os.{Bytes}
use libp2p_experiment.FlatBuffers.{FlatBuffers, SizePrefix}
use libp2p_experiment.Wire.{
  End, closed, Stream, short_read, read_full, Frame, frame, finished, broken, read_frame, on_size,
  on_content,
}

-- A stream with these bytes to come.
abbrev pub stream : Bytes → End → Stream
stream bs e = record { pending = bs; end = e }

read_full-append :
    (xs ys : Bytes) (e : End) → read_full (length xs) (stream (xs ++ ys) e) ≡ (ok xs, stream ys e)
unfolding read_full
read_full-append xs ys e =
    rw (take-append xs ys, drop-append xs ys) (ground (arith, length-append xs ys))

read_full_short :
    (n : ℕ) (bs : Bytes) (e : End)
    → length bs < n
    → read_full n (stream bs e) ≡ (err (short_read bs e), stream [] e)
unfolding read_full
read_full_short n bs e h = ground arith

module _ (fb : FlatBuffers) (P : SizePrefix fb) where
  -- One message as a builder finishes it, and many of them.
  abbrev pub sized : Bytes → Bytes
  sized b = P.prefix (length b) ++ b

  abbrev pub encode : List Bytes → Bytes
  encode [] = []
  encode (b ∷ bs) = sized b ++ encode bs

  read_frame_after_prefix :
      (n : ℕ) (rest : Bytes) (e : End)
      → n < 2 ^ 32
      → read_frame fb (stream (P.prefix n ++ rest) e)
        ≡ on_content (P.prefix n) (read_full n (stream rest e))
  unfolding read_frame
  read_frame_after_prefix n rest e h =
      rw (← P.length-prefix n)
        (ap (on_size fb) (read_full-append (P.prefix n) rest e) ∙ rw (P.get-prefix n h))

  -- The next message is read whole, and the stream goes on behind it.
  pub read_frame-sized :
      (b rest : Bytes) (e : End)
      → length b < 2 ^ 32
      → read_frame fb (stream (sized b ++ rest) e) ≡ frame (P.prefix (length b)) b (stream rest e)
  read_frame-sized b rest e h =
      rw (append_assoc, read_frame_after_prefix (length b) (b ++ rest) e h)
        (ap (on_content (P.prefix (length b))) (read_full-append b rest e))

  -- The stream is closed between two messages: the loop ends.
  pub read_frame_closed : read_frame fb (stream [] closed) ≡ finished
  unfolding read_frame
  read_frame_closed = ap (on_size fb) (read_full_short fb.size_uoffset [] closed P.nonempty)

  -- The stream is closed inside a size prefix: an error.
  pub read_frame_cut_size :
      (x : ℕ) (xs : Bytes)
      → length (x ∷ xs) < fb.size_uoffset
      → read_frame fb (stream (x ∷ xs) closed)
        ≡ broken (wrapped "failed to read message size" unexpected_eof)
  unfolding read_frame
  read_frame_cut_size x xs h = ap (on_size fb) (read_full_short fb.size_uoffset (x ∷ xs) closed h)

  -- The stream is closed inside the bytes of a message: an error.
  pub read_frame_cut_content :
      (n x : ℕ) (xs : Bytes)
      → n < 2 ^ 32
      → length (x ∷ xs) < n
      → read_frame fb (stream (P.prefix n ++ x ∷ xs) closed)
        ≡ broken (wrapped "failed to read message content" unexpected_eof)
  read_frame_cut_content n x xs h k =
      read_frame_after_prefix n (x ∷ xs) closed h
      ∙ ap (on_content (P.prefix n)) (read_full_short n (x ∷ xs) closed k)

  -- The stream is closed right behind the size prefix of a message that has bytes: no error.
  pub read_frame_cut_between :
      (n : ℕ) → n < 2 ^ 32 → 0 < n → read_frame fb (stream (P.prefix n ++ []) closed) ≡ finished
  read_frame_cut_between n h k =
      read_frame_after_prefix n [] closed h
      ∙ ap (on_content (P.prefix n)) (read_full_short n [] closed k)

-- The rest of the stream behind a message, and none where there is no message.
abbrev pub Shorter : ℕ → Frame → Type 0
Shorter n (frame _ _ s) = length s.pending < n
Shorter n finished = Unit {0}
Shorter n (broken _) = Unit {0}

on_content-Shorter :
    (size_buf : Bytes) (n : ℕ) (r : Result Bytes × Stream)
    → length r.1.pending < n
    → Shorter n (on_content size_buf r)
on_content-Shorter size_buf n (ok b, t) h = h
on_content-Shorter size_buf n (crash m, t) h = tt
on_content-Shorter size_buf n (err eof, t) h = tt
on_content-Shorter size_buf n (err _, t) h = tt

read_full-pending : (k : ℕ) (s : Stream) → length (read_full k s).1.pending ≤ length s.pending
unfolding read_full
read_full-pending k s = ground (arith, length-drop k s.pending)

read_full_takes :
    (k : ℕ) (s : Stream) (b : Bytes)
    → 0 < k
    → (read_full k s).0 ≡ ok b
    → length (read_full k s).1.pending < length s.pending
unfolding read_full
read_full_takes k s b h e = ground (arith, length-drop k s.pending)

on_size-Shorter :
    (fb : FlatBuffers) (n : ℕ) (r : Result Bytes × Stream)
    → ((b : Bytes) → r.0 ≡ ok b → length r.1.pending < n)
    → Shorter n (on_size fb r)
on_size-Shorter fb n (ok b, t) h =
    on_content-Shorter b n (read_full (fb.get_size_prefix b) t)
      (omega (arith, read_full-pending (fb.get_size_prefix b) t, h b refl))
on_size-Shorter fb n (crash m, t) h = tt
on_size-Shorter fb n (err eof, t) h = tt
on_size-Shorter fb n (err _, t) h = tt

-- Every message takes bytes from the stream.
pub read_frame-Shorter :
    (fb : FlatBuffers) (s : Stream)
    → 0 < fb.size_uoffset
    → Shorter (length s.pending) (read_frame fb s)
unfolding read_frame
read_frame-Shorter fb s h =
    on_size-Shorter fb _ (read_full fb.size_uoffset s)
      (λ b e. read_full_takes fb.size_uoffset s b h e)
