-- ===== src/App/Messages/Rounds.antt =====
-- The messages of `sendDomainData` to one node, and `ReceiveDomainData` on the bytes of them.
use mathlib.Core.List.{append_assoc, append-nil}
use libp2p_experiment.Base.{
  ℕ, zero, suc, ◌<◌, ◌^◌, ◌≡◌, refl, ap, ◌∙◌, sym, String, List, [], ◌∷◌, ◌++◌, length,
  length-append, arith, string_eq,
}
use libp2p_experiment.Base.Effects.{Result, ok, Exec, pure, >>=-ok}
use libp2p_experiment.Os.{Bytes, FilePath, Fs}
use libp2p_experiment.Wire.{closed}
use libp2p_experiment.Wire.Frames.{stream, encode}
use libp2p_experiment.Wire.Writes.{bytes_to, bytes_to-append, bytes_to_self}
use libp2p_experiment.FlatBuffers.{FlatBuffers, BuilderApi, SizePrefix, Table}
use libp2p_experiment.FlatBuffers.Built.{Built}
use libp2p_experiment.FlatBuffers.Framed.{Framed}
use libp2p_experiment.Node.{PeerId}
use libp2p_experiment.Utils.Receive.{receive_domain_data}
use libp2p_experiment.Utils.Receive.Delivery.{AllFit, deliver, receive_all}
use libp2p_experiment.App.Messages.{write_to, Lists, upload_message, send_rounds}
use libp2p_experiment.App.Messages.Uploaded.{Received, upload_message-Received}

write_to-ok :
    (api : BuilderApi) (write : PeerId → Bytes → Result (Unit {0})) (p : PeerId) (bytes : Bytes)
    (l : Lists api)
    → write p bytes ≡ ok tt
    → write_to api write p bytes l ≡ (ok tt, record l { sent = l.sent ++ (p, bytes) ∷ [] })
write_to-ok api write p bytes l w = ground (arith, w)

-- `Reset` leaves a builder as `NewBuilder` makes it, up to the memory that it keeps.
abbrev pub Resets : BuilderApi → Type 0
Resets api = (b : api.Builder) → api.reset b ≡ api.new_builder

module _ (fb : FlatBuffers) (api : BuilderApi) (B : Built fb api) (P : SizePrefix fb)
    (write : PeerId → Bytes → Result (Unit {0})) (p : PeerId) (domain_id : String)
    (random : ℕ → String × Bytes) where
  -- The message with the number `i`, from a new builder.
  abbrev pub message : ℕ → Bytes
  message i = (upload_message api domain_id (random i).0 (random i).1 api.new_builder).0

  -- The contents of the messages, from the one with the number `i` on, each what it was made of.
  abbrev pub Uploads : ℕ → List Bytes → Type 0
  Uploads i [] = Unit
  Uploads i (b ∷ bs) =
      ((d : Table) × ((q : Table) × Received fb api B domain_id (random i).0 (random i).1 P b d q))
      × Uploads (suc i) bs

  -- What `n` rounds send.
  pub record Sent (n i : ℕ) (l : Lists api) (bufs : List Bytes) : Type 0 where
    pub number : length bufs ≡ n
    pub uploads : Uploads i bufs
    pub fit : AllFit bufs
    pub arrive :
        bytes_to p (send_rounds api fb write n i p domain_id random api.new_builder l).1.sent
        ≡ bytes_to p l.sent ++ encode fb P bufs

  abbrev after : ℕ → Lists api → Lists api
  after i l = record l { sent = l.sent ++ (p, message i) ∷ [] }

  sent_to : (i : ℕ) (l : Lists api) → bytes_to p (after i l).sent ≡ bytes_to p l.sent ++ message i
  sent_to i l =
      bytes_to-append p l.sent ((p, message i) ∷ [])
      ∙ ap (λ (x : Bytes). bytes_to p l.sent ++ x)
          (bytes_to_self p (message i) ∙ append-nil (message i))

  -- The builder of the next round is as good as new.
  round :
      (n i : ℕ) (l : Lists api)
      → Resets api
      → ((bytes : Bytes) → write p bytes ≡ ok tt)
      → send_rounds api fb write (suc n) i p domain_id random api.new_builder l
        ≡ send_rounds api fb write n (suc i) p domain_id random api.new_builder (after i l)
  unfolding send_rounds
  round n i l fresh w =
      let b = (upload_message api domain_id (random i).0 (random i).1 api.new_builder).1 in
      >>=-ok (write_to api write p (message i))
        (λ _. send_rounds api fb write n (suc i) p domain_id random (api.reset b)) l
        (write_to-ok api write p (message i) l (w (message i)))
      ∙ ap (λ c. send_rounds api fb write n (suc i) p domain_id random c (after i l)) (fresh b)

  abbrev pub Fits : Type 0
  Fits = (i : ℕ) → (length (random i).1 < 2 ^ 24) × (length (message i) < 2 ^ 32)

  rounds-Sent :
      (n i : ℕ) (l : Lists api)
      → Framed fb api B P
      → Resets api
      → ((bytes : Bytes) → write p bytes ≡ ok tt)
      → Fits
      → (bufs : List Bytes) × Sent n i l bufs
  unfolding send_rounds
  rounds-Sent zero i l F fresh w h = (
    [],
    record { number = refl; uploads = tt; fit = tt; arrive = sym (append-nil (bytes_to p l.sent)) },
  )
  rounds-Sent (suc n) i l F fresh w h =
      let (b, (d, (q, r))) =
        upload_message-Received fb api B domain_id (random i).0 (random i).1 P F (h i).0 in
      let (bs, s) = rounds-Sent n (suc i) (after i l) F fresh w h in
      (
        b ∷ bs,
        record {
          number = ap suc s.number;
          uploads = ((d, (q, r)), s.uploads);
          fit = (
            omega (arith, (h i).1, ap length r.with_size, length-append (P.prefix (length b)) b),
            s.fit,
          );
          arrive =
              ap (λ (t : Result (Unit {0}) × Lists api). bytes_to p t.1.sent) (round n i l fresh w)
              ∙ s.arrive
              ∙ ap (λ (x : Bytes). x ++ encode fb P bs) (sent_to i l)
              ∙ ap (λ (m : Bytes). (bytes_to p l.sent ++ m) ++ encode fb P bs) r.with_size
              ∙ append_assoc (bytes_to p l.sent) (P.prefix (length b) ++ b) (encode fb P bs);
        },
      )

  -- What the hundred messages to a node come to, once it reads them up to the end.
  pub record Arrived {S : Type 0} (temp_name : FilePath → Fs → String) (base : FilePath)
      (on_received : Table → Exec (Fs × S) (Unit {0})) (l : Lists api) (bufs : List Bytes)
      : Type 0 where
    pub hundred : length bufs ≡ 100
    pub contents : Uploads 0 bufs
    pub processed :
        receive_domain_data fb temp_name base on_received (
          stream
            (bytes_to p
              (send_rounds api fb write 100 0 p domain_id random api.new_builder l).1.sent)
            closed)
        ≡ deliver fb P temp_name base on_received bufs (pure tt)

  -- What the application sends to a node on a new stream can be read back: `ReceiveDomainData`, run on
  -- the bytes that were sent up to their end, processes a hundred messages, in the order in which they
  -- were sent and each once, up to the first whose processing fails, and each is the domain data that
  -- the application made it of, although one builder made all of them. No write fails, nothing was
  -- sent to the node before, the contents have less than 2 ^ 24 bytes and the messages, as a new
  -- builder makes them, less than 2 ^ 32; the builder and the tables of FlatBuffers are lawful, and
  -- `Reset` leaves a builder as good as new.
  pub send_rounds-Arrived :
      {S : Type 0} (temp_name : FilePath → Fs → String) (base : FilePath)
      (on_received : Table → Exec (Fs × S) (Unit {0})) (l : Lists api)
      → Framed fb api B P
      → Resets api
      → ((bytes : Bytes) → write p bytes ≡ ok tt)
      → Fits
      → bytes_to p l.sent ≡ []
      → (bufs : List Bytes) × Arrived temp_name base on_received l bufs
  send_rounds-Arrived temp_name base on_received l F fresh w h new =
      let (bufs, s) = rounds-Sent 100 0 l F fresh w h in
      (
        bufs,
        record {
          hundred = s.number;
          contents = s.uploads;
          processed =
              ap
                (λ (bs : Bytes).
                  receive_domain_data fb temp_name base on_received (stream bs closed))
                (s.arrive
                  ∙ ap (λ (x : Bytes). x ++ encode fb P bufs) new
                  ∙ sym (append-nil (encode fb P bufs)))
              ∙ receive_all fb P temp_name base on_received bufs s.fit;
        },
      )
