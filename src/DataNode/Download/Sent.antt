-- ===== src/DataNode/Download/Sent.antt =====
-- What a request for domain data gets.
use mathlib.Core.List.{append_assoc, append-nil}
use libp2p_experiment.Base.{
  ◌≡◌, refl, ◌∙◌, sym, ap, String, Bool, true, false, Option, some, List, [], ◌∷◌, ◌++◌, Eq,
}
use libp2p_experiment.Base.Effects.{Result, ok, lift, handle-ok, ◌>>=◌, ◌>>◌, then_ok, >>=-ok}
use libp2p_experiment.Os.{
  Bytes, FilePath, Fs, Entry, dir, file, stat, mkdir_all, read_file, read_dir,
}
use libp2p_experiment.Os.Laws.{Healthy, NoFileOn, read_file-ok, mkdir_all_total, mkdir_all-Healthy}
use libp2p_experiment.FlatBuffers.{FlatBuffers, Table}
use libp2p_experiment.Posemesh.{get_root_as}
use libp2p_experiment.Posemesh.Request
use libp2p_experiment.Utils.Receive.{on_fs}
use libp2p_experiment.Utils.Subscribers.{match_domain_data, add_subscriber}
use libp2p_experiment.DataNode.Process.{Network, Streams}
use libp2p_experiment.DataNode.Download.{
  request_key, check_file, send, send_first, on_no_file, send_each, on_download_request,
}

-- The messages to one stream.
abbrev pub to_stream : {S : Type 0} → S → List Bytes → List (S × Bytes)
to_stream s [] = []
to_stream s (b ∷ bs) = (s, b) ∷ to_stream s bs

module _ (compiled : String → String → Option Bool) (fb : FlatBuffers) (key : String)
    (base : FilePath) (fs : Fs) where
  -- The first files of the directories of a listing that the expression matches, in this order.
  -- Files, directories that do not match, and empty directories give nothing.
  pub data Firsts : List (String × Entry) → List Bytes → Type 0 where
    done : Firsts [] []
    plain :
        {n : String} {c : Bytes} {entries : List (String × Entry)} {bs : List Bytes}
        → Firsts entries bs
        → Firsts ((n, file c) ∷ entries) bs
    other :
        {n : String} {entries : List (String × Entry)} {bs : List Bytes}
        → match_domain_data compiled key n ≡ false
        → Firsts entries bs
        → Firsts ((n, dir) ∷ entries) bs
    empty :
        {n : String} {entries : List (String × Entry)} {bs : List Bytes}
        → match_domain_data compiled key n ≡ true
        → read_dir (n ∷ base) fs ≡ (ok [], fs)
        → Firsts entries bs
        → Firsts ((n, dir) ∷ entries) bs
    first :
        {n m : String} {f : Entry} {b : Bytes} {others entries : List (String × Entry)}
        {bs : List Bytes}
        → match_domain_data compiled key n ≡ true
        → read_dir (n ∷ base) fs ≡ (ok ((m, f) ∷ others), fs)
        → stat (m ∷ n ∷ base) fs ≡ some (file b)
        → check_file fb b ≡ ok tt
        → Firsts entries bs
        → Firsts ((n, dir) ∷ entries) (b ∷ bs)

module _ {S : Type 0} ⦃e : Eq S⦄ (streams : Streams S) (compiled : String → String → Option Bool)
    (fb : FlatBuffers) (s : S) (open_stream : streams.write_fails s ≡ false) where
  -- The network after some messages to the stream.
  abbrev pub after : List Bytes → Network S → Network S
  after bs n = record n { sent = n.sent ++ to_stream s bs }

  send_total :
      (b : Bytes) (fs : Fs) (n : Network S)
      → send streams compiled fb s b (fs, n) ≡ (ok tt, (fs, after (b ∷ []) n))
  unfolding send
  send_total b fs n = rw open_stream refl

  after-cons :
      (b : Bytes) (bs : List Bytes) (n : Network S) → after bs (after (b ∷ []) n) ≡ after (b ∷ bs) n
  after-cons b bs n =
      ap (λ (l : List (S × Bytes)). record n { sent = l })
        (append_assoc n.sent ((s, b) ∷ []) (to_stream s bs))

  send_first-sent :
      (p : FilePath) (m : String) (f : Entry) (others : List (String × Entry)) (b : Bytes) (fs : Fs)
      (n : Network S)
      → Healthy fs
      → stat (m ∷ p) fs ≡ some (file b)
      → check_file fb b ≡ ok tt
      → send_first streams compiled fb s p ((m, f) ∷ others) (fs, n)
        ≡ (ok tt, (fs, after (b ∷ []) n))
  unfolding send_first
  send_first-sent p m f others b fs n healthy there readable =
      handle-ok (on_fs (read_file (m ∷ p))) (on_no_file streams compiled fb s)
        (λ bytes. send streams compiled fb s bytes >> lift (check_file fb bytes)) (fs, n)
        (ap (λ (r : Result Bytes × Fs). (r.0, (r.1, n)))
          (read_file-ok (m ∷ p) b fs (healthy (m ∷ p)).0 there))
      ∙ then_ok (send streams compiled fb s b) (λ _. lift (check_file fb b)) (fs, n)
          (send_total b fs n) (ap (λ r. (r, (fs, after (b ∷ []) n))) readable)

  module _ (key : String) (base : FilePath) (fs : Fs) (healthy : Healthy fs) where
    listed :
        (p : FilePath) {l : List (String × Entry)} (n : Network S)
        → read_dir p fs ≡ (ok l, fs)
        → on_fs (read_dir p) (fs, n) ≡ (ok l, (fs, n))
    listed p n e = ap (λ (r : Result (List (String × Entry)) × Fs). (r.0, (r.1, n))) e

    send_each-sent :
        {entries : List (String × Entry)} {bs : List Bytes} (n : Network S)
        → Firsts compiled fb key base fs entries bs
        → send_each streams compiled fb s key base entries (fs, n) ≡ (ok tt, (fs, after bs n))
    unfolding send_each
    send_each-sent n done = ap (λ l. (ok tt, (fs, record n { sent = l }))) (sym (append-nil n.sent))
    send_each-sent n (plain r) = send_each-sent n r
    send_each-sent n (other h r) = rw h (send_each-sent n r)
    send_each-sent n (empty {n = name} {entries} h e r) = rw h (
        then_ok (on_fs (read_dir (name ∷ base)) >>= send_first streams compiled fb s (name ∷ base))
          (λ _. send_each streams compiled fb s key base entries) (fs, n)
          (>>=-ok (on_fs (read_dir (name ∷ base))) _ (fs, n) (listed (name ∷ base) n e))
          (send_each-sent n r))
    send_each-sent n (first {n = name} {m} {f} {b} {others} {entries} {bs} h e there readable r) =
        rw h (
          then_ok
            (on_fs (read_dir (name ∷ base)) >>= send_first streams compiled fb s (name ∷ base))
            (λ _. send_each streams compiled fb s key base entries) (fs, n)
            (then_ok (on_fs (read_dir (name ∷ base))) _ (fs, n) (listed (name ∷ base) n e)
              (send_first-sent (name ∷ base) m f others b fs n healthy there readable))
            (send_each-sent (after (b ∷ []) n) r
              ∙ ap (λ (k : Network S). (ok tt, (fs, k))) (after-cons b bs n)))

  -- On a disk without faults, where no file is in the way of the directory of the domain, a request
  -- that can be read and whose stream takes what is written is subscribed under its expression, and
  -- gets the first file of each directory of the domain that the expression matches and that is not
  -- empty, in the order of the listing and nothing else. The files can be read and hold a message.
  pub on_download_request-sent :
      (base : FilePath) (buf : Bytes) (req : Table) (fs : Fs) (n : Network S)
      {entries : List (String × Entry)} {bs : List Bytes}
      → get_root_as fb buf 0 ≡ ok req
      → Healthy fs
      → NoFileOn (fb.text (Request.domain_id fb req) ∷ base) fs
      → read_dir
          (fb.text (Request.domain_id fb req) ∷ base)
          (mkdir_all (fb.text (Request.domain_id fb req) ∷ base) fs).1
        ≡ (ok entries, (mkdir_all (fb.text (Request.domain_id fb req) ∷ base) fs).1)
      → Firsts compiled fb
          (request_key fb req)
          (fb.text (Request.domain_id fb req) ∷ base)
          (mkdir_all (fb.text (Request.domain_id fb req) ∷ base) fs).1
          entries
          bs
      → on_download_request streams compiled fb s base buf (fs, n) ≡ (
        ok tt,
        (
          (mkdir_all (fb.text (Request.domain_id fb req) ∷ base) fs).1,
          record n {
            subscribers = add_subscriber (request_key fb req) s n.subscribers;
            sent = n.sent ++ to_stream s bs;
          },
        ),
      )
  unfolding on_download_request
  on_download_request-sent base buf req fs n {entries} {bs} root healthy free listing firsts =
      let p = fb.text (Request.domain_id fb req) ∷ base in
      let t = (mkdir_all p fs).1 in
      let n' = record n { subscribers = add_subscriber (request_key fb req) s n.subscribers } in
      let ht = mkdir_all-Healthy p fs healthy in
      then_ok (lift (get_root_as fb buf 0)) _ (fs, n) (ap (λ r. (r, (fs, n))) root)
        (then_ok (on_fs (mkdir_all p)) _ (fs, n')
          (ap (λ r. (r, (t, n'))) (mkdir_all_total p fs healthy free).0)
          (then_ok (on_fs (read_dir p)) _ (t, n') (listed (request_key fb req) p t ht p n' listing)
            (send_each-sent (request_key fb req) p t ht n' firsts)))
