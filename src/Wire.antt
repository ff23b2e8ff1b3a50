-- ===== src/Wire.antt =====
-- Messages on a stream: `io.ReadFull`, and the loop over size-prefixed messages that
-- utils/domain_data.go, utils/frame.go and utils/job.go have in common.
pub mod Frames
pub mod Writes
use libp2p_experiment.Base.{ℕ, [], ◌∷◌, length, take, drop, if◌then◌else◌, nat_eq, leb}
use libp2p_experiment.Base.Effects.{
  Error, eof, unexpected_eof, io_error, wrapped, Result, ok, err, crash, Exec,
}
use libp2p_experiment.Os.{Bytes}
use libp2p_experiment.FlatBuffers.{FlatBuffers}

-- What follows the bytes that are still to come: the other side closed the stream, or it broke.
pub data End : Type 0 where
  closed reset : End

pub record Stream : Type 0 where
  pub pending : Bytes
  pub end : End

-- The error of a read of `n > 0` bytes that cannot be met: nothing, or a part, was there.
abbrev pub short_read : Bytes → End → Error
short_read [] closed = eof
short_read (_ ∷ _) closed = unexpected_eof
short_read _ reset = io_error

-- `io.ReadFull(reader, buf)` with a buffer of `n` bytes.
unfoldable pub read_full : ℕ → Exec Stream Bytes
read_full n s =
    if leb n (length s.pending)
    then (ok (take n s.pending), record s { pending = drop n s.pending })
    else (err (short_read s.pending s.end), record s { pending = [] })

pub data Frame : Type 0 where
  frame : Bytes → Bytes → Stream → Frame
  finished : Frame
  broken : Error → Frame

abbrev pub on_content : Bytes → Result Bytes × Stream → Frame
on_content size_buf (ok buf, s) = frame size_buf buf s
on_content size_buf (err eof, s) = finished
on_content size_buf (err e, s) = broken (wrapped "failed to read message content" e)
on_content size_buf (crash m, s) = finished

module _ (fb : FlatBuffers) where
  abbrev pub on_size : Result Bytes × Stream → Frame
  on_size (ok size_buf, s) = on_content size_buf (read_full (fb.get_size_prefix size_buf) s)
  on_size (err eof, s) = finished
  on_size (err e, s) = broken (wrapped "failed to read message size" e)
  on_size (crash m, s) = finished

  -- One round up to the message: its size prefix and its bytes, the end of the loop without an
  -- error, or the error that the function returns. `io.ReadFull` does not panic.
  unfoldable pub read_frame : Stream → Frame
  read_frame s = on_size (read_full fb.size_uoffset s)
