-- ===== src/Utils/Job.antt =====
-- utils/job.go: `LoadJobFromStream` hands the first message of a stream to a callback.
use libp2p_experiment.Base.Effects.{Exec, pure, raise, lift, ◌>>=◌}
use libp2p_experiment.FlatBuffers.{FlatBuffers, Table}
use libp2p_experiment.Posemesh.{get_root_as}
use libp2p_experiment.Wire.{Stream, frame, finished, broken, read_frame}

module _ (fb : FlatBuffers) {S : Type 0} (on_job : Table → Exec S (Unit {0})) where
  unfoldable pub load_job_from_stream : Stream → Exec S (Unit {0})
  load_job_from_stream s = elim (read_frame fb s) [
    | finished ↦ pure tt
    | broken e ↦ raise e
    | frame _ buf _ ↦ lift (get_root_as fb buf 0) >>= on_job
  ]
