-- ===== src/Tests/Uploads.antt =====
-- What the application and the recorder send, with the small FlatBuffers.
use libp2p_experiment.App.{empty_visual}
use libp2p_experiment.App.Messages.Displayed.{OnDisplay, on_row-merged_message}
use libp2p_experiment.Tests.Rereading.{came, merged, short}
use libp2p_experiment.Base.{ℕ, ◌≡◌, refl, String, List, [], ◌∷◌, length, arith, nat_eq, string_eq}
use libp2p_experiment.Base.Effects.{Result, ok, Exec, pure}
use libp2p_experiment.Os.{Bytes, Fs}
use libp2p_experiment.FlatBuffers.{Table}
use libp2p_experiment.App.Messages.{Lists, upload_message}
use libp2p_experiment.App.Messages.Rounds.{Arrived, send_rounds-Arrived}
use libp2p_experiment.App.Messages.Portals.{Spread, create_portal-receive_portal}
use libp2p_experiment.Discovery.{Directory}
use libp2p_experiment.Recorder.{image_message}
use libp2p_experiment.Recorder.Frames.{Stored, load_frame_from_stream-image_message}
use libp2p_experiment.Wire.{closed}
use libp2p_experiment.Wire.Frames.{sized}
use mathlib.Core.Path.{subst}
use libp2p_experiment.Base.{sym}
use libp2p_experiment.Os.{dir}
use libp2p_experiment.Tests.Downloads.{
  free, no_dir, domain_path, files, network, streams, compiled, message, no_file_there, listed,
}
use libp2p_experiment.App.Messages.Answered.{any_data, Answered, on_download_request-Answered}
use libp2p_experiment.DataNode.Download.{check_file}
use libp2p_experiment.DataNode.Download.Sent.{Firsts}
use libp2p_experiment.Os.{file, mkdir_all, stat, read_dir, children, sort, place}
use libp2p_experiment.Base.{list_eq}
use libp2p_experiment.Utils.Subscribers.{match_domain_data}
use libp2p_experiment.Tests.{disk, disk-Healthy}
use libp2p_experiment.Base.Dict
use libp2p_experiment.Base.{some}
use text.Mathlib.Text
use libp2p_experiment.Base.{ap, ◌≢◌, true, false}
use libp2p_experiment.Tests.Builder.{small, small-SizePrefix, encode, item_at}
use libp2p_experiment.Tests.Builder.Drafts.{
  drafts, drafts-Built, drafts-Framed, text-utf8, sized_lem,
}

-- No write fails, and every message has the same name and content.
abbrev written : String → Bytes → Result (Unit {0})
written p bytes = ok tt

abbrev same_data : ℕ → String × Bytes
same_data i = ("name", 1 ∷ 0 ∷ 1 ∷ [])

abbrev nothing_sent : Lists drafts
nothing_sent = record { domain_list = []; portal_list = []; sent = [] }

abbrev received : Table → Exec (Fs × ℕ) (Unit {0})
received d = pure tt

message_length :
    length (upload_message drafts "name" "name" (1 ∷ 0 ∷ 1 ∷ []) drafts.new_builder).0 ≡ 23
unfolding upload_message encode item_at nat_eq string_eq
message_length = refl

send_rounds-Arrived_example :
    (bufs : List Bytes) × Arrived small drafts drafts-Built small-SizePrefix written "b" "name"
      same_data
      (λ p fs. "file")
      []
      received
      nothing_sent
      bufs
send_rounds-Arrived_example =
    send_rounds-Arrived small drafts drafts-Built small-SizePrefix written "b" "name" same_data
      (λ p fs. "file") [] received nothing_sent drafts-Framed (λ b. refl) (λ bytes. refl)
      (λ i. (omega arith, omega (arith, message_length))) refl

abbrev no_portals : Directory
no_portals = record { domain_list = []; portal_list = []; published = []; sent = [] }

b_ne_a : ◌≢◌ {A = String} "b" "a"
b_ne_a e = let f : true ≡ false = ap (Text.◌==◌ "b") e in cc

create_portal-receive_portal_example :
    (buf : Bytes) × ((message : Bytes) × ((p : Table) × ((t : Table) × Spread small drafts
            drafts-Built 5 "name" small-SizePrefix
            (λ topic bytes. ok tt)
            no_portals
            (disk [])
            "a"
            "b"
            []
            (disk [])
            no_portals
            buf
            message
            p
            t)))
create_portal-receive_portal_example =
    create_portal-receive_portal small drafts drafts-Built 5 "name" small-SizePrefix
      (λ topic bytes. ok tt) no_portals (disk []) "a" "b" [] (disk []) no_portals drafts-Framed
      (λ bytes. refl) b_ne_a (Dict.lookup-nil (small.text (drafts-Built.utf8 "name")))

image_length : length (image_message drafts 1 (7 ∷ 8 ∷ [])) ≡ 11
unfolding image_message encode item_at nat_eq string_eq
image_length = refl

-- The callback leaves what it counts.
abbrev shown : Table → Exec (Fs × ℕ) (Unit {0})
shown image = pure tt

load_frame_from_stream-image_message_example :
    (t : Table) × ((d : Fs) × Stored small drafts drafts-Built 1
        (7 ∷ 8 ∷ [])
        []
        shown
        []
        closed
        (disk [])
        0
        t
        d)
load_frame_from_stream-image_message_example =
    load_frame_from_stream-image_message small drafts drafts-Built 1 (7 ∷ 8 ∷ []) small-SizePrefix
      [] shown [] closed (disk []) 0 drafts-Framed (λ e. cc) (omega arith)
      (omega (arith, image_length)) (disk-Healthy []) (free ("images" ∷ []))
      (λ n. no_dir n ("images" ∷ []))

-- The first file of the one directory, whose message has two bytes.
one_message :
    Firsts compiled small any_data domain_path
      (mkdir_all domain_path (disk files)).1
      (("name_Partition", dir) ∷ [])
      (sized small small-SizePrefix (0 ∷ 1 ∷ []) ∷ [])
unfolding mkdir_all read_dir stat children sort place Dict.lookup list_eq string_eq
    match_domain_data check_file
one_message =
    subst
      (λ b.
        Firsts compiled small any_data domain_path (mkdir_all domain_path (disk files)).1
          (("name_Partition", dir) ∷ []) (b ∷ []))
      (sym (sized_lem (0 ∷ 1 ∷ [])))
      (Firsts.first {m = "1.bin"} {f = file message} {others = []} refl refl refl refl Firsts.done)

on_download_request-Answered_example :
    (buf : Bytes) × Answered streams compiled small drafts drafts-Built small-SizePrefix 4 "name" []
      (disk files)
      network
      ((0 ∷ 1 ∷ []) ∷ [])
      buf
unfolding nat_eq
on_download_request-Answered_example =
    on_download_request-Answered streams compiled small drafts drafts-Built small-SizePrefix 4
      "name" [] (disk files) network ((0 ∷ 1 ∷ []) ∷ []) drafts-Framed refl text-utf8 refl
      (disk-Healthy files) no_file_there listed one_message (omega arith, tt) refl

on_row-merged_message_example :
    (buf : Bytes) × ((d : Table) × OnDisplay small drafts drafts-Built came merged "v2"
        small-SizePrefix
        (λ n. some 3)
        (disk [])
        empty_visual
        3
        buf
        d)
on_row-merged_message_example =
    on_row-merged_message small drafts drafts-Built came merged "v2" small-SizePrefix (λ n. some 3)
      (disk []) empty_visual 3 drafts-Framed short refl (omega arith)
