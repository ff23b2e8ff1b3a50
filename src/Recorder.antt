-- ===== src/Recorder.antt =====
-- example/thc/main.go and job/job.go: a recorder, which describes its jobs to itself and sends every
-- fourth frame of its camera to the nodes that the jobs name. `ids` are the UUIDs, in the order in
-- which they are made.
pub mod Camera
pub mod Frames
pub mod Outputs
use libp2p_experiment.Base.{
  ℕ, zero, suc, ◌+◌, String, Bool, Option, none, some, List, [], ◌∷◌, ◌++◌, if◌then◌else◌, ◌==◌,
  string_eq, length, map,
}
use libp2p_experiment.Base.Effects.{Result, ok, err, crash}
use libp2p_experiment.Bufio.{Writer, new_writer, write}
use libp2p_experiment.Os.{Bytes}
use libp2p_experiment.FlatBuffers.{BuilderApi}
use libp2p_experiment.Node.{PeerId}

pub record JobPeer : Type 0 where
  pub id : PeerId
  pub handler : String
  pub addr : String

mutual
  pub data Job : Type 0 where
    job : String → String → JobPeer → Jobs → List JobPeer → Job

  pub data Jobs : Type 0 where
    no_jobs : Jobs
    more_jobs : Job → Jobs → Jobs

abbrev pub upload_image_protocol_id : String
upload_image_protocol_id = "/posemesh/upload_image/1.0.0"

abbrev nobody : JobPeer
nobody = record { id = ""; handler = ""; addr = "" }

abbrev at_peer : PeerId → JobPeer
at_peer p = record { id = p; handler = ""; addr = "" }

abbrev at_url : String → JobPeer
at_url url = record { id = ""; handler = ""; addr = url }

abbrev pub camera_of : PeerId → JobPeer
camera_of self = record { id = self; handler = upload_image_protocol_id; addr = "" }

module _ (ids : ℕ → String) (cactus_url : String) where
  -- The step of one Salvia node: it makes poses of what it gets and sends them to the backend.
  unfoldable pub pose_steps : ℕ → List PeerId → Jobs
  pose_steps i [] = no_jobs
  pose_steps i (dest ∷ dests) =
      more_jobs (job (ids i) "create pose" (at_peer dest) no_jobs (at_url cactus_url ∷ []))
        (pose_steps (suc i) dests)

  abbrev pub outputs : List PeerId → List JobPeer
  outputs [] = []
  outputs (dest ∷ dests) = at_peer dest ∷ outputs dests

  unfoldable pub slam_job : PeerId → List PeerId → Job
  unfolding pose_steps
  slam_job self dests = job (ids 1) "SLAM" (camera_of self) (pose_steps 2 dests) (outputs dests)

  -- The job of the vision node, or of the node that the command line names.
  unfoldable pub cbd_job : ℕ → PeerId → PeerId → Job
  cbd_job i self dest =
      job (ids i) "CBD" (camera_of self)
        (more_jobs (job (ids (suc i)) "create task" (at_peer dest) no_jobs (at_url cactus_url ∷ []))
          no_jobs)
        (at_peer dest ∷ [])

  -- The job that `main` starts, once it found Salvia nodes and a node for the other part.
  unfoldable pub recorder_job : PeerId → List PeerId → PeerId → Job
  unfolding slam_job cbd_job
  recorder_job self dests dest =
      job (ids 0) "Recorder" nobody
        (more_jobs (slam_job self dests) (more_jobs (cbd_job (2 + length dests) self dest) no_jobs))
        []

-- The node of the other part: `parsed` is what the two parsers of libp2p make of the command line.
unfoldable pub task_node : String → Result PeerId → PeerId → List PeerId → Result PeerId
task_node cbd_url parsed first rest =
    if cbd_url == ""
    then ok first
    else elim parsed [ ok p ↦ ok p | err _ ↦ crash "Failed to parse CBD URL" | crash m ↦ crash m ]

module _ {S : Type 0} (open_stream : PeerId → String → Result S) where
  -- The loop over the outputs of one step: the slot of the step holds the stream opened last.
  abbrev opened : Result S → (Option S → Result (Option S)) → Result (Option S)
  opened (ok s) go = go (some s)
  opened (err e) go = err e
  opened (crash m) go = crash m

  unfoldable pub open_outputs : List JobPeer → Option S → Result (Option S)
  open_outputs [] slot = ok slot
  open_outputs (dest ∷ dests) slot = opened (open_stream dest.id dest.handler) (open_outputs dests)

  abbrev with_slot : Result (Option S) → Result (List (Option S)) → Result (List (Option S))
  with_slot (ok slot) (ok slots) = ok (slot ∷ slots)
  with_slot (ok slot) (err e) = err e
  with_slot (ok slot) (crash m) = crash m
  with_slot (err e) rest = err e
  with_slot (crash m) rest = crash m

  -- The loop over the steps. A stream that cannot be opened ends `streamCameraFeed`.
  unfoldable pub open_streams : Jobs → Result (List (Option S))
  unfolding open_outputs
  open_streams no_jobs = ok []
  open_streams (more_jobs (job _ _ _ _ dests) steps) =
      with_slot (open_outputs dests none) (open_streams steps)

-- The message of one frame, with the bits of `UnixNano`.
unfoldable pub image_message : (api : BuilderApi) → ℕ → Bytes → Bytes
image_message api time frame =
    let (offset, b1) = api.create_byte_vector frame api.new_builder in
    let b2 = api.prepend_int64_slot 0 time 0 (api.start_object 2 b1) in
    let (root, b3) = api.end_object (api.prepend_uoffset_slot 1 offset 0 b2) in
    api.finished_bytes (api.finish_size_prefixed root b3)

-- A stream with the buffer around it.
pub record Outlet (S : Type 0) : Type 0 where
  pub stream : S
  pub buffer : Writer

abbrev pub new_outlet : {S : Type 0} → Option S → Option (Outlet S)
new_outlet none = none
new_outlet (some s) = some record { stream = s; buffer = new_writer }

-- The loop over the streams for one frame: an error ends it, and a step without a stream panics.
-- `put` says whether a write to a stream succeeds. Nothing flushes the buffers.
unfoldable pub send_frame :
    {S : Type 0}
    → (S → Bytes → Bool)
    → Bytes
    → List (Option (Outlet S))
    → Result (List (Option (Outlet S)))
send_frame put message [] = ok []
send_frame put message (none ∷ slots) = crash "nil stream"
send_frame put message (some o ∷ slots) =
    let b = write (put o.stream) message o.buffer in
    let rest = send_frame put message slots in
    if b.broken then ok (some (record o { buffer = b }) ∷ slots) else elim rest [
      | ok others ↦ ok (some (record o { buffer = b }) ∷ others)
      | err e ↦ err e
      | crash m ↦ crash m
    ]

-- The frames that the camera hands on, one after the other.
unfoldable pub send_frames :
    {S : Type 0}
    → (S → Bytes → Bool)
    → List Bytes
    → List (Option (Outlet S))
    → Result (List (Option (Outlet S)))
unfolding send_frame
send_frames put [] slots = ok slots
send_frames put (message ∷ messages) slots = elim (send_frame put message slots) [
  | ok next ↦ send_frames put messages next
  | err e ↦ err e
  | crash m ↦ crash m
]

-- `streamCameraFeed`, with the messages of the frames, and what it leaves in the buffers.
unfoldable pub stream_camera_feed :
    {S : Type 0}
    → (PeerId → String → Result S)
    → (S → Bytes → Bool)
    → Jobs
    → List Bytes
    → Result (List (Option (Outlet S)))
unfolding open_streams send_frames
stream_camera_feed open_stream put steps messages = elim (open_streams open_stream steps) [
  | ok slots ↦ send_frames put messages (map new_outlet slots)
  | err e ↦ err e
  | crash m ↦ crash m
]
