-- ===== src/Utils/Receive.antt =====
-- utils/domain_data.go: `ReceiveDomainData`, which stores every message of a stream in a directory
-- of its domain, name and type, and hands it to a callback. The callback may use the file system
-- and a state of its own. `temp_name` is the name that `os.CreateTemp` picks.
pub mod Delivery
pub mod Stored
use libp2p_experiment.Base.{ℕ, zero, suc, String, ◌<>◌, ◌∷◌, length}
use libp2p_experiment.Base.Effects.{failed, wrapped, Exec, pure, raise, lift, ◌>>=◌, ◌>>◌, handle}
use libp2p_experiment.Os.{Bytes, FilePath, Fs, mkdir_all, create, write}
use libp2p_experiment.FlatBuffers.{FlatBuffers, Table}
use libp2p_experiment.Posemesh.{get_root_as}
use libp2p_experiment.Posemesh.DomainData
use libp2p_experiment.Wire.{Stream, Frame, frame, finished, broken, read_frame}

-- A call of `os` in a program that has a state beside the file system.
abbrev pub on_fs : {S A : Type 0} → Exec Fs A → Exec (Fs × S) A
on_fs m (fs, x) = ((m fs).0, ((m fs).1, x))

-- `os.CreateTemp(dirPath, "*.bin")`
abbrev pub create_temp : (FilePath → Fs → String) → FilePath → Exec Fs String
create_temp temp_name dir s = (do create (temp_name dir s) dir; pure (temp_name dir s)) s

module _ (fb : FlatBuffers) (temp_name : FilePath → Fs → String) (base : FilePath) where
  -- `path.Join(basePath, "domaindata", domainId, name + "_" + dataType)`
  unfoldable pub dir_path : Table → FilePath
  dir_path dd =
      (fb.text (DomainData.name fb dd)
        <> "_"
        <> DomainData.type_string (DomainData.data_type fb dd))
      ∷ fb.text (DomainData.domain_id fb dd)
      ∷ "domaindata"
      ∷ base

  unfoldable pub store : Bytes → Bytes → Table → Exec Fs (Unit {0})
  unfolding dir_path
  store size_buf buf dd = do
    let dir = dir_path dd
    mkdir_all dir
    f ← create_temp temp_name dir
    write (f ∷ dir) size_buf
    write (f ∷ dir) buf

  module _ {S : Type 0} (on_received : Table → Exec (Fs × S) (Unit {0})) where
    -- The body of the loop, from the message on.
    unfoldable pub process : Bytes → Bytes → Exec (Fs × S) (Unit {0})
    unfolding store
    process size_buf buf = do
      dd ← lift (get_root_as fb buf 0)
      on_fs (store size_buf buf dd)
      handle (on_received dd) (λ e. raise (wrapped "failed to process domain data" e)) pure

    -- What a round does with what it read; the next rounds are `again`.
    abbrev pub on_frame : (Stream → Exec (Fs × S) (Unit {0})) → Frame → Exec (Fs × S) (Unit {0})
    on_frame again finished = pure tt
    on_frame again (broken e) = raise e
    on_frame again (frame size_buf buf rest) = process size_buf buf >> again rest

    -- At most as many rounds as the fuel says.
    unfoldable pub receive_loop : ℕ → Stream → Exec (Fs × S) (Unit {0})
    receive_loop zero s = raise (failed "out of fuel")
    receive_loop (suc fuel) s = on_frame (receive_loop fuel) (read_frame fb s)

    -- `ReceiveDomainData`: every round takes a byte at least.
    unfoldable pub receive_domain_data : Stream → Exec (Fs × S) (Unit {0})
    receive_domain_data s = receive_loop (suc (length s.pending)) s
