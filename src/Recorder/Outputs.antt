-- ===== src/Recorder/Outputs.antt =====
-- Who gets the frames of the recorder, and how much of them.
use mathlib.Core.Path.{subst}
use mathlib.Core.List.{append_assoc, append-nil}
use libp2p_experiment.Base.{
  arith, Bool, true, sym, ℕ, ◌+◌, length, ◌≡◌, refl, ap, ◌∙◌, String, Option, none, some, List, [],
  ◌∷◌, ◌++◌, map,
}
use libp2p_experiment.Base.Effects.{Result, ok}
use libp2p_experiment.Os.{Bytes}
use libp2p_experiment.Bufio.{Writer, new_writer, write, new-Written, Written, write-Written}
use libp2p_experiment.Node.{PeerId}
use libp2p_experiment.Recorder.{
  JobPeer, Job, Jobs, job, no_jobs, more_jobs, camera_of, pose_steps, outputs, slam_job, cbd_job,
  recorder_job, open_outputs, open_streams, Outlet, new_outlet, send_frame, send_frames,
  stream_camera_feed,
}

abbrev pub concat : List Bytes → Bytes
concat [] = []
concat (m ∷ ms) = m ++ concat ms

-- The `Steps` of a job.
abbrev pub steps_of : Job → Jobs
steps_of (job id name input steps dests) = steps

outputs-append :
    (ids : ℕ → String) (url : String) (before : List PeerId) (dest : PeerId)
    → outputs ids url (before ++ dest ∷ []) ≡ outputs ids url before ++ outputs ids url (dest ∷ [])
outputs-append ids url [] dest = refl
outputs-append ids url (d ∷ before) dest =
    ap (λ ds. outputs ids url (d ∷ []) ++ ds) (outputs-append ids url before dest)

module _ {S : Type 0} (open_stream : PeerId → String → Result S) (stream : PeerId → String → S)
    (opens : (p : PeerId) (protocol : String)
      → open_stream p protocol ≡ ok (stream p protocol)) where
  abbrev to : JobPeer → S
  to dest = stream dest.id dest.handler

  open_outputs_last :
      (before : List JobPeer) (dest : JobPeer) (slot : Option S)
      → open_outputs open_stream (before ++ dest ∷ []) slot ≡ ok (some (to dest))
  unfolding open_outputs
  open_outputs_last [] dest slot = rw (opens dest.id dest.handler) refl
  open_outputs_last (d ∷ before) dest slot =
      rw (opens d.id d.handler) (open_outputs_last before dest (some (to d)))

  -- The steps of a job, each with an output, and the last output of each.
  pub data Lasts : Jobs → List JobPeer → Type 0 where
    nothing : Lasts no_jobs []
    one_more :
        {id name : String} {input dest : JobPeer} {steps jobs : Jobs} {dests : List JobPeer}
        (before : List JobPeer)
        → Lasts jobs dests
        → Lasts (more_jobs (job id name input steps (before ++ dest ∷ [])) jobs) (dest ∷ dests)

  open_streams-Lasts :
      {jobs : Jobs} {dests : List JobPeer}
      → Lasts jobs dests
      → open_streams open_stream jobs ≡ ok (map (λ d. some (to d)) dests)
  unfolding open_streams
  open_streams-Lasts nothing = refl
  open_streams-Lasts (one_more {dest} before l) =
      rw (open_outputs_last before dest none, open_streams-Lasts l) refl

  send_frames-ok :
      (put : S → Bytes → Bool) (m : Bytes) (ms : List Bytes) (slots next : List (Option (Outlet S)))
      → send_frame put m slots ≡ ok next
      → send_frames put (m ∷ ms) slots ≡ send_frames put ms next
  unfolding send_frames
  send_frames-ok put m ms slots next e = ground (arith, e)

  feed-ok :
      (put : S → Bytes → Bool) (ms : List Bytes) (steps : Jobs) (slots : List (Option S))
      → open_streams open_stream steps ≡ ok slots
      → stream_camera_feed open_stream put steps ms ≡ send_frames put ms (map new_outlet slots)
  unfolding stream_camera_feed
  feed-ok put ms steps slots e = ground (arith, e)

  abbrev pub outlet : S → Writer → Option (Outlet S)
  outlet s b = some record { stream = s; buffer = b }

  -- The streams that are opened.
  abbrev pub ends : PeerId → PeerId → Writer → Writer → List (Option (Outlet S))
  ends last dest a b = outlet (stream last "") a ∷ outlet (stream dest "") b ∷ []

  module _ (put : S → Bytes → Bool) (takes : (s : S) (p : Bytes) → put s p ≡ true) where
    send_frame_two :
        (all message : Bytes) (s t : S) (a b : Writer)
        → Written all a
        → Written all b
        → send_frame put message (outlet s a ∷ outlet t b ∷ [])
          ≡ ok (outlet s (write (put s) message a) ∷ outlet t (write (put t) message b) ∷ [])
    unfolding send_frame write
    send_frame_two all message s t a b h k =
        let one = write-Written (put s) (takes s) all message a h in
        let two = write-Written (put t) (takes t) all message b k in
        rw (one.holds.works, two.holds.works) refl

    -- What becomes of messages behind others.
    record Fed (s t : S) (all : Bytes) (r : Result (List (Option (Outlet S)))) : Type 0 where
      a : Writer
      b : Writer
      left : r ≡ ok (outlet s a ∷ outlet t b ∷ [])
      first : Written all a
      second : Written all b

    send_frames-Fed :
        (messages : List Bytes) (all : Bytes) (s t : S) (a b : Writer)
        → Written all a
        → Written all b
        → Fed s t (all ++ concat messages) (send_frames put messages (outlet s a ∷ outlet t b ∷ []))
    unfolding send_frames
    send_frames-Fed [] all s t a b h k =
        let same = sym (append-nil all) in
        record {
          a = a;
          b = b;
          left = refl;
          first = subst (λ x. Written x a) same h;
          second = subst (λ x. Written x b) same k;
        }
    send_frames-Fed (m ∷ ms) all s t a b h k =
        let next =
          send_frames-Fed ms (all ++ m) s t (write (put s) m a) (write (put t) m b)
            (write-Written (put s) (takes s) all m a h)
            (write-Written (put t) (takes t) all m b k) in
        let same = append_assoc all m (concat ms) in
        record {
          a = next.a;
          b = next.b;
          left =
              send_frames-ok put m ms (outlet s a ∷ outlet t b ∷ [])
                (outlet s (write (put s) m a) ∷ outlet t (write (put t) m b) ∷ [])
                (send_frame_two all m s t a b h k)
              ∙ next.left;
          first = subst (λ x. Written x next.a) same next.first;
          second = subst (λ x. Written x next.b) same next.second;
        }

    two_streams :
        (ids : ℕ → String) (url : String) (self dest : PeerId) (before : List PeerId)
        (last : PeerId)
        → open_streams open_stream (steps_of (recorder_job ids url self (before ++ last ∷ []) dest))
          ≡ ok (some (stream last "") ∷ some (stream dest "") ∷ [])
    unfolding recorder_job slam_job cbd_job
    two_streams ids url self dest before last =
        let told = outputs ids url (last ∷ dest ∷ []) in
        let steps = pose_steps ids url 2 (before ++ last ∷ []) in
        let jobs : List JobPeer → Jobs = λ ds.
          more_jobs (job (ids 1) "SLAM" (camera_of self) steps ds)
            (more_jobs (cbd_job ids url (2 + length (before ++ last ∷ [])) self dest) no_jobs) in
        let lasts : Lasts (jobs (outputs ids url before ++ outputs ids url (last ∷ []))) told =
          one_more (outputs ids url before) (one_more [] nothing) in
        ap (λ ds. open_streams open_stream (jobs ds)) (outputs-append ids url before last)
        ∙ open_streams-Lasts lasts

    -- What the recorder leaves behind the messages of its frames.
    pub record Left (ids : ℕ → String) (url : String) (self dest : PeerId) (before : List PeerId)
        (last : PeerId) (messages : List Bytes) : Type 0 where
      pub a : Writer
      pub b : Writer
      pub buffers :
          stream_camera_feed open_stream put
            (steps_of (recorder_job ids url self (before ++ last ∷ []) dest))
            messages
          ≡ ok (ends last dest a b)
      pub to_last : Written (concat messages) a
      pub to_dest : Written (concat messages) b

    -- Of all the Salvia nodes that the recorder found, only the last is told of the frames, and the
    -- node of the other part is; both streams are opened with an empty protocol id. On each of the two
    -- streams comes what the messages of the frames are, one after the other, but for the end of it
    -- that the buffer around the stream holds back, at most 4096 bytes; and nothing comes on it before
    -- these are more than 4096 bytes together. No stream and no write fails.
    pub recorder_job-told :
        (ids : ℕ → String) (url : String) (self dest : PeerId) (before : List PeerId)
        (last : PeerId) (messages : List Bytes)
        → Left ids url self dest before last messages
    recorder_job-told ids url self dest before last messages =
        let fed =
          send_frames-Fed messages [] (stream last "") (stream dest "") new_writer new_writer
            new-Written new-Written in
        record {
          a = fed.a;
          b = fed.b;
          buffers =
              feed-ok put messages (steps_of (recorder_job ids url self (before ++ last ∷ []) dest))
                (some (stream last "") ∷ some (stream dest "") ∷ [])
                (two_streams ids url self dest before last)
              ∙ fed.left;
          to_last = fed.first;
          to_dest = fed.second;
        }
