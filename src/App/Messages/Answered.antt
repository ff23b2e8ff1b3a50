-- ===== src/App/Messages/Answered.antt =====
-- The request of the application at a data node, and what the application receives for it.
use mathlib.Core.Path.{subst}
use libp2p_experiment.Posemesh.{get_root_as}
use libp2p_experiment.Base.{
  ◌≡◌, refl, ap, ◌∙◌, String, Bool, false, Option, List, [], ◌∷◌, ◌++◌, length, map, Eq,
}
use libp2p_experiment.Base.Effects.{ok, Exec}
use libp2p_experiment.Os.{Bytes, FilePath, Fs, Entry, mkdir_all, read_dir}
use libp2p_experiment.Os.Laws.{Healthy, NoFileOn}
use libp2p_experiment.Wire.{End}
use libp2p_experiment.Wire.Frames.{stream, sized, encode}
use libp2p_experiment.Wire.Writes.{bytes_to, bytes_to-append, bytes_to-cons_self}
use libp2p_experiment.FlatBuffers.{FlatBuffers, BuilderApi, SizePrefix, Table}
use libp2p_experiment.FlatBuffers.Built.{Built}
use libp2p_experiment.FlatBuffers.Framed.{Framed}
use libp2p_experiment.Posemesh.Request
use libp2p_experiment.Utils.Receive.{receive_domain_data}
use libp2p_experiment.Utils.Receive.Delivery.{AllFit, deliver, receive-encode}
use libp2p_experiment.Utils.Subscribers.{add_subscriber}
use libp2p_experiment.DataNode.Process.{Network, Streams}
use libp2p_experiment.DataNode.Download.{request_key, on_download_request}
use libp2p_experiment.DataNode.Download.Sent.{to_stream, Firsts, on_download_request-sent}
use libp2p_experiment.App.Messages.{request_message}
use libp2p_experiment.App.Messages.Requested.{request_message-request_key}

-- The expression that stands for every name and type.
abbrev pub any_data : String
any_data = ".*_.*"

bytes_to-to_stream :
    {S : Type 0} ⦃eq : Eq S⦄ (fb : FlatBuffers) (P : SizePrefix fb) (s : S) (bs : List Bytes)
    → bytes_to s (to_stream s (map (sized fb P) bs)) ≡ encode fb P bs
bytes_to-to_stream fb P s [] = refl
bytes_to-to_stream fb P s (b ∷ bs) =
    bytes_to-cons_self s (sized fb P b) (to_stream s (map (sized fb P) bs))
    ∙ ap (λ (x : Bytes). sized fb P b ++ x) (bytes_to-to_stream fb P s bs)

module _ {S : Type 0} ⦃eq : Eq S⦄ (streams : Streams S) (compiled : String → String → Option Bool)
    (fb : FlatBuffers) (api : BuilderApi) (B : Built fb api) (P : SizePrefix fb) (s : S)
    (domain_id : String) where
  abbrev directory : FilePath → FilePath
  directory base = domain_id ∷ base

  abbrev with_directory : FilePath → Fs → Fs
  with_directory base fs = (mkdir_all (directory base) fs).1

  -- What the handler does with a request that names the domain `i` and has the expression `k`.
  abbrev Handles : FilePath → Bytes → Fs → Network S → List Bytes → String → String → Type 0
  Handles base buf fs n bs i k =
      (entries : List (String × Entry))
      → NoFileOn (i ∷ base) fs
      → read_dir (i ∷ base) (mkdir_all (i ∷ base) fs).1 ≡ (ok entries, (mkdir_all (i ∷ base) fs).1)
      → Firsts compiled fb k (i ∷ base) (mkdir_all (i ∷ base) fs).1 entries bs
      → on_download_request streams compiled fb s base buf (fs, n) ≡ (
        ok tt,
        (
          (mkdir_all (i ∷ base) fs).1,
          record n {
            subscribers = add_subscriber k s n.subscribers;
            sent = n.sent ++ to_stream s bs;
          },
        ),
      )

  request-Handles :
      (base : FilePath) (buf : Bytes) (req : Table) (fs : Fs) (n : Network S) (bs : List Bytes)
      {i k : String}
      → get_root_as fb buf 0 ≡ ok req
      → streams.write_fails s ≡ false
      → Healthy fs
      → fb.text (Request.domain_id fb req) ≡ i
      → request_key fb req ≡ k
      → Handles base buf fs n bs i k
  request-Handles base buf req fs n bs {i} root open_stream healthy same_id same_key =
      subst (λ k. Handles base buf fs n bs i k) same_key
        (subst (λ j. Handles base buf fs n bs j (request_key fb req)) same_id
          (λ entries free listing firsts.
            on_download_request-sent streams compiled fb s open_stream base buf req fs n root
              healthy free listing firsts))

  -- The data node behind the request, and the application behind what it got so far.
  pub record Answered (base : FilePath) (fs : Fs) (n : Network S) (bs : List Bytes) (buf : Bytes)
      : Type 1 where
    pub with_size : request_message api domain_id ≡ P.prefix (length buf) ++ buf
    pub subscribed :
        (on_download_request streams compiled fb s base buf (fs, n)).1.1.subscribers
        ≡ add_subscriber any_data s n.subscribers
    pub received :
        {V : Type 0} (temp_name : FilePath → Fs → String) (own : FilePath)
        (on_received : Table → Exec (Fs × V) (Unit {0})) (rest : Bytes) (e : End)
        → receive_domain_data fb temp_name own on_received (
            stream
              (bytes_to s (on_download_request streams compiled fb s base buf (fs, n)).1.1.sent
                ++ rest)
              e)
          ≡ deliver fb P temp_name own on_received bs
              (receive_domain_data fb temp_name own on_received (stream rest e))

  -- What the application asks for arrives: the data node reads the request of the application behind
  -- its size, subscribes the stream to all data of the domain, and the application receives, each
  -- once and in the order of the listing, the messages in the first files of the directories of the
  -- domain, up to the first whose processing fails, and then what follows on the stream. The files
  -- hold whole messages with their sizes, the disk of the node has no faults, the stream takes what
  -- is written and got nothing before, Go gets the id of the domain back from its bytes and no text
  -- from no bytes, and the builder and the tables of FlatBuffers are lawful.
  pub on_download_request-Answered :
      (base : FilePath) (fs : Fs) (n : Network S) {entries : List (String × Entry)}
      (bs : List Bytes)
      → Framed fb api B P
      → fb.text [] ≡ ""
      → fb.text (B.utf8 domain_id) ≡ domain_id
      → streams.write_fails s ≡ false
      → Healthy fs
      → NoFileOn (directory base) fs
      → read_dir (directory base) (with_directory base fs) ≡ (ok entries, with_directory base fs)
      → Firsts compiled fb any_data
          (directory base)
          (with_directory base fs)
          entries
          (map (sized fb P) bs)
      → AllFit bs
      → bytes_to s n.sent ≡ []
      → (buf : Bytes) × Answered base fs n bs buf
  on_download_request-Answered base fs n {entries} bs F empty same_text open_stream healthy free
        listing firsts fit new =
      let (buf, (req, u)) = request_message-request_key fb api B domain_id P F empty in
      let run =
        request-Handles base buf req fs n (map (sized fb P) bs) u.readable open_stream healthy
          (ap fb.text u.same_domain ∙ same_text) u.for_all entries free listing firsts in
      let all : bytes_to s (n.sent ++ to_stream s (map (sized fb P) bs)) ≡ encode fb P bs =
        bytes_to-append s n.sent (to_stream s (map (sized fb P) bs))
        ∙ ap (λ (x : Bytes). x ++ bytes_to s (to_stream s (map (sized fb P) bs))) new
        ∙ bytes_to-to_stream fb P s bs in
      (
        buf,
        record {
          with_size = u.with_size;
          subscribed = ap (λ r. r.1.1.subscribers) run;
          received = λ temp_name own on_received rest e.
              ap
                (λ r.
                  receive_domain_data fb temp_name own on_received
                    (stream (bytes_to s r.1.1.sent ++ rest) e))
                run
              ∙ ap
                  (λ (x : Bytes).
                    receive_domain_data fb temp_name own on_received (stream (x ++ rest) e))
                  all
              ∙ receive-encode fb P temp_name own on_received bs rest e fit;
        },
      )
