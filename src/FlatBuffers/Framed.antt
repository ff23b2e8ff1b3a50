-- ===== src/FlatBuffers/Framed.antt =====
-- A message that a builder finishes is its size and then the message itself, which is read without the
-- size too: documented behaviour of `FinishSizePrefixed`.
use libp2p_experiment.Base.{ℕ, ◌<◌, ◌≡◌, some, ◌++◌, length}
use libp2p_experiment.Base.Effects.{ok}
use libp2p_experiment.Os.{Bytes}
use libp2p_experiment.FlatBuffers.{FlatBuffers, BuilderApi, Table, SizePrefix, uoffset}
use libp2p_experiment.FlatBuffers.Built.{Built, Object, at, Reads, ReadsObject}

pub record Framed (fb : FlatBuffers) (api : BuilderApi) (B : Built fb api) (P : SizePrefix fb)
    : Type 0 where
  pub framed :
      (b : api.Builder) (o : ℕ) (f : Object)
      → (B.written b).objects o ≡ some f
      → (buf : Bytes) × ((api.finished_bytes (api.finish_size_prefixed o b)
            ≡ P.prefix (length buf) ++ buf)
          × ((n : ℕ) × ((fb.get_uoffset buf ≡ ok n)
                × ((k : ℕ)
                    → k < 64
                    → let t : Table = record { bytes = buf; pos = uoffset n } in
                      Reads fb (B.written b) t k (f k)
                      × ((o : ℕ) → f k ≡ some (at o) → ReadsObject fb (B.written b) t k o)))))
