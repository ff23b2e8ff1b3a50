-- ===== src/Utils/Receive/Delivery.antt =====
-- What arrives of what was sent.
use mathlib.Core.List.{append_assoc}
use libp2p_experiment.Base.{
  ℕ, zero, suc, ◌^◌, ◌<◌, ◌≡◌, refl, ◌∙◌, sym, ap, String, List, [], ◌∷◌, ◌++◌, arith, length,
}
use libp2p_experiment.Base.Effects.{unexpected_eof, wrapped, Exec, pure, raise, ◌>>◌}
use libp2p_experiment.Os.{Bytes, FilePath, Fs}
use libp2p_experiment.FlatBuffers.{FlatBuffers, Table, SizePrefix}
use libp2p_experiment.Wire.{Stream, End, closed, Frame, frame, finished, broken, read_frame}
use libp2p_experiment.Wire.Frames.{
  stream, sized, encode, read_frame-sized, read_frame_closed, read_frame_cut_content,
  read_frame_cut_between, Shorter, read_frame-Shorter,
}
use libp2p_experiment.Utils.Receive.{process, on_frame, receive_loop, receive_domain_data}

-- Every message is short enough for its size prefix.
abbrev pub AllFit : List Bytes → Type 0
AllFit [] = Unit {0}
AllFit (b ∷ bs) = (length b < 2 ^ 32) × AllFit bs

module _ (fb : FlatBuffers) (P : SizePrefix fb) (temp_name : FilePath → Fs → String)
    (base : FilePath) {S : Type 0} (on_received : Table → Exec (Fs × S) (Unit {0})) where
  on_frame_enough :
      (k : ℕ) (again again' : Stream → Exec (Fs × S) (Unit {0})) (f : Frame)
      → Shorter k f
      → ((s : Stream) → length s.pending < k → again s ≡ again' s)
      → on_frame fb temp_name base on_received again f
        ≡ on_frame fb temp_name base on_received again' f
  on_frame_enough k again again' finished h same = refl
  on_frame_enough k again again' (broken e) h same = refl
  on_frame_enough k again again' (frame size_buf buf rest) h same =
      ap (λ (m : Exec (Fs × S) (Unit {0})). process fb temp_name base on_received size_buf buf >> m)
        (same rest h)

  -- The fuel does not matter once it is more than the bytes to come.
  loop_enough :
      (n m : ℕ) (s : Stream)
      → length s.pending < n
      → length s.pending < m
      → receive_loop fb temp_name base on_received n s
        ≡ receive_loop fb temp_name base on_received m s
  unfolding receive_loop
  loop_enough zero m s h k = absurd (omega arith)
  loop_enough (suc n) zero s h k = absurd (omega arith)
  loop_enough (suc n) (suc m) s h k =
      on_frame_enough (length s.pending) _ _ (read_frame fb s) (read_frame-Shorter fb s P.nonempty)
        (λ t short. loop_enough n m t (omega arith) (omega arith))

  -- One round, with the fuel that the bytes to come ask for.
  receive_step :
      (s : Stream)
      → receive_domain_data fb temp_name base on_received s
        ≡ on_frame fb temp_name base on_received
            (receive_domain_data fb temp_name base on_received)
            (read_frame fb s)
  unfolding receive_domain_data receive_loop
  receive_step s =
      on_frame_enough (length s.pending) _ _ (read_frame fb s) (read_frame-Shorter fb s P.nonempty)
        (λ t short. loop_enough (length s.pending) (suc (length t.pending)) t short (omega arith))

  -- The messages one after the other, up to the first that fails.
  pub deliver : List Bytes → Exec (Fs × S) (Unit {0}) → Exec (Fs × S) (Unit {0})
  deliver [] last = last
  deliver (b ∷ bs) last =
      process fb temp_name base on_received (P.prefix (length b)) b >> deliver bs last

  -- A stream that begins with whole messages is processed message by message, in order and each
  -- once, up to the first that fails; then the rest of the stream is read.
  pub receive-encode :
      (bs : List Bytes) (rest : Bytes) (e : End)
      → AllFit bs
      → receive_domain_data fb temp_name base on_received (stream (encode fb P bs ++ rest) e)
        ≡ deliver bs (receive_domain_data fb temp_name base on_received (stream rest e))
  unfolding deliver
  receive-encode [] rest e h = refl
  receive-encode (b ∷ bs) rest e h =
      ap (λ (x : Bytes). receive_domain_data fb temp_name base on_received (stream x e))
        (append_assoc (sized fb P b) (encode fb P bs) rest)
      ∙ receive_step (stream (sized fb P b ++ (encode fb P bs ++ rest)) e)
      ∙ ap
          (on_frame fb temp_name base on_received
            (receive_domain_data fb temp_name base on_received))
          (read_frame-sized fb P b (encode fb P bs ++ rest) e h.0)
      ∙ ap
          (λ (m : Exec (Fs × S) (Unit {0})).
            process fb temp_name base on_received (P.prefix (length b)) b >> m)
          (receive-encode bs rest e h.1)

  -- Any number of messages of at most 2 ^ 32 - 1 bytes, sent with their size prefixes on a stream
  -- that is then closed, are all processed, in order and each once, up to the first that fails; if
  -- none fails, the call returns without an error. So the rounds that the length of the stream
  -- allows are enough.
  pub receive_all :
      (bs : List Bytes)
      → AllFit bs
      → receive_domain_data fb temp_name base on_received (stream (encode fb P bs ++ []) closed)
        ≡ deliver bs (pure tt)
  receive_all bs h =
      receive-encode bs [] closed h
      ∙ ap (deliver bs) (
          receive_step (stream [] closed)
          ∙ ap (on_frame fb temp_name base on_received _) (read_frame_closed fb P))

  -- A stream that ends inside a message is an error after the messages before it: it is closed
  -- within the bytes of a message of `n` bytes, of which at least one has come.
  pub receive_cut_content :
      (bs : List Bytes) (n x : ℕ) (xs : Bytes)
      → AllFit bs
      → n < 2 ^ 32
      → length (x ∷ xs) < n
      → receive_domain_data fb temp_name base on_received
          (stream (encode fb P bs ++ (P.prefix n ++ x ∷ xs)) closed)
        ≡ deliver bs (raise (wrapped "failed to read message content" unexpected_eof))
  receive_cut_content bs n x xs h k l =
      receive-encode bs _ closed h
      ∙ ap (deliver bs) (
          receive_step _
          ∙ ap (on_frame fb temp_name base on_received _) (read_frame_cut_content fb P n x xs k l))

  -- But a message whose size prefix has come and none of whose bytes follow is lost without an
  -- error: the call then ends as if the stream had stopped before the prefix.
  pub receive_cut_between :
      (bs : List Bytes) (n : ℕ)
      → AllFit bs
      → n < 2 ^ 32
      → 0 < n
      → receive_domain_data fb temp_name base on_received
          (stream (encode fb P bs ++ (P.prefix n ++ [])) closed)
        ≡ receive_domain_data fb temp_name base on_received (stream (encode fb P bs ++ []) closed)
  receive_cut_between bs n h k l =
      receive-encode bs _ closed h
      ∙ ap (deliver bs) (
          receive_step _
          ∙ ap (on_frame fb temp_name base on_received _) (read_frame_cut_between fb P n k l))
      ∙ sym (receive_all bs h)
