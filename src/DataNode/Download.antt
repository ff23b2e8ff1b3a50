-- ===== src/DataNode/Download.antt =====
-- example/data_node/main.go, `onDownloadDomainDataReqReceived`: a stream is subscribed, and gets one
-- file of each directory that its expression matches. The state beside the file system is that of
-- `Process`; a failed read or write of the stream is an argument. A read gets all the bytes asked
-- for, and the check of the file after it was sent, which only logs, is left to `check_file`.
pub mod Sent
use libp2p_experiment.Base.{
  ℕ, String, ◌<>◌, Bool, Option, List, [], ◌∷◌, ◌++◌, if◌then◌else◌, ◌==◌, nat_eq, string_eq,
  length, ltb, leb, take, replicate, ◌&&◌, Eq,
}
use libp2p_experiment.Base.Effects.{
  Error, eof, is_dir, io_error, Result, ok, err, Exec, pure, raise, lift, ◌>>=◌, ◌>>◌, handle,
}
use libp2p_experiment.Os.{Bytes, FilePath, Fs, Entry, dir, file, mkdir_all, read_file, read_dir}
use libp2p_experiment.FlatBuffers.{FlatBuffers, Table}
use libp2p_experiment.Posemesh.{get_root_as}
use libp2p_experiment.Posemesh.Request
use libp2p_experiment.Posemesh.DomainData.{any_domain_data_none, type_string}
use libp2p_experiment.Utils.Receive.{on_fs}
use libp2p_experiment.Utils.Subscribers.{match_domain_data, add_subscriber}
use libp2p_experiment.DataNode.Process.{Network, Streams}

-- The name that stands for the one asked for, and the type.
abbrev any_name : String → String
any_name name = if name == "" then ".*" else name

abbrev any_type : ℕ → String
any_type t = if t == any_domain_data_none then ".*" else type_string t

module _ (fb : FlatBuffers) where
  -- The expression that a request is subscribed under.
  unfoldable pub request_key : Table → String
  request_key req =
      any_name (fb.text (Request.name fb req)) <> "_" <> any_type (Request.request_type fb req)

  -- The size and the bytes are read again once they are sent; a file that has no byte, or a size and
  -- then no byte, ends the handler.
  unfoldable pub check_file : Bytes → Result (Unit {0})
  check_file [] = err eof
  check_file bytes =
      if leb (length bytes) 4 && ltb 0 (fb.get_size_prefix (take 4 (bytes ++ replicate 4 0)))
      then err eof
      else ok tt

module _ {S : Type 0} ⦃e : Eq S⦄ (streams : Streams S) (compiled : String → String → Option Bool)
    (fb : FlatBuffers) (s : S) where
  -- `io.Copy(s, f)`
  unfoldable pub send : Bytes → Exec (Fs × Network S) (Unit {0})
  send bytes (fs, n) =
      if streams.write_fails s
      then raise io_error (fs, n)
      else (ok tt, (fs, record n { sent = n.sent ++ (s, bytes) ∷ [] }))

  -- The first entry of a directory. A directory can be opened but not copied, which ends the
  -- handler; where the entry cannot be opened, the loop goes on.
  abbrev pub on_no_file : Error → Exec (Fs × Network S) (Unit {0})
  on_no_file is_dir = raise is_dir
  on_no_file _ = pure tt

  unfoldable pub send_first : FilePath → List (String × Entry) → Exec (Fs × Network S) (Unit {0})
  unfolding send check_file
  send_first p [] = pure tt
  send_first p ((n, _) ∷ _) =
      handle (on_fs (read_file (n ∷ p))) on_no_file
        λ bytes. send bytes >> lift (check_file fb bytes)

  unfoldable pub send_each :
      String → FilePath → List (String × Entry) → Exec (Fs × Network S) (Unit {0})
  unfolding send_first
  send_each key base [] = pure tt
  send_each key base ((n, file _) ∷ entries) = send_each key base entries
  send_each key base ((n, dir) ∷ entries) =
      let rest = send_each key base entries in
      if match_domain_data compiled key n
      then (on_fs (read_dir (n ∷ base)) >>= send_first (n ∷ base)) >> rest
      else rest

  abbrev pub subscribe : String → Exec (Fs × Network S) (Unit {0})
  subscribe key (fs, n) =
      (ok tt, (fs, record n { subscribers = add_subscriber key s n.subscribers }))

  -- The handler from the bytes of the request on.
  unfoldable pub on_download_request : FilePath → Bytes → Exec (Fs × Network S) (Unit {0})
  unfolding send_each
  on_download_request base buf = do
    req ← lift (get_root_as fb buf 0)
    let p = fb.text (Request.domain_id fb req) ∷ base
    subscribe (request_key fb req)
    on_fs (mkdir_all p)
    entries ← on_fs (read_dir p)
    send_each (request_key fb req) p entries
