-- ===== src/Node/Start/Failures.antt =====
-- What `Start` leaves when libp2p refuses something.
use mathlib.Core.List.{append_assoc, append-nil}
use mathlib.Core.Path.{subst}
use libp2p_experiment.Base.{
  ◌≡◌, ◌∙◌, refl, ap, sym, String, Bool, true, false, List, [], ◌∷◌, ◌++◌, ◌&&◌, if◌then◌else◌,
  arith,
}
use libp2p_experiment.Base.Effects.{Result, ok, err, crash, Exec, pure, lift, ◌>>=◌}
use libp2p_experiment.Config.{Config}
use libp2p_experiment.Node.Events.{publishes}
use libp2p_experiment.Node.Start.{
  Libp2p, psk_of, host_options, Started, host, relay_service, advertised, gossip_sub, mdns_service,
  joined, peer_events, subscription, publisher, receiver, handlers, closed, begin, relaying,
  publishing, note, closing, serve_topic, start, posemesh_relay_service, node_info_topic,
}

-- `passes` says of each call whether it gives no error.
module _ {X : Type 0} (passes : X → Bool) where
  abbrev pub all_pass : List X → Bool
  all_pass [] = true
  all_pass (x ∷ xs) = passes x && all_pass xs

  all_pass-append :
      (vs ws : List X) → all_pass vs ≡ true → all_pass ws ≡ true → all_pass (vs ++ ws) ≡ true
  all_pass-append [] ws h k = k
  all_pass-append (v ∷ vs) ws h k = ground (arith, h, all_pass-append vs ws (ground (arith, h)) k)

  -- The run ended the process in the first of the calls `ws` that gave an error: the calls before it
  -- are noted behind `log`, and nothing else is.
  pub record Stopped {A : Type 0} (log ws : List X) (r : Result A × List X) : Type 0 where
    pub message : String
    pub first : List X
    pub failing : X
    pub rest : List X
    pub result : r ≡ (crash message, log ++ first)
    pub split : first ++ failing ∷ rest ≡ ws
    pub good : all_pass first ≡ true
    pub bad : passes failing ≡ false

  -- Either that, or none of them gave an error, and all are noted.
  pub data Outcome {A : Type 0} (log ws : List X) (r : Result A × List X) : Type 0 where
    completed : (a : A) → all_pass ws ≡ true → r ≡ (ok a, log ++ ws) → Outcome log ws r
    stopped : Stopped log ws r → Outcome log ws r

  -- A program that makes the calls `ws`.
  abbrev Notes : {A : Type 0} → Exec (List X) A → List X → Type 0
  Notes m ws = (log : List X) → Outcome log ws (m log)

  Notes-pure : {A : Type 0} (a : A) → Notes (pure a) []
  Notes-pure a log = completed a refl (ap (λ l. (ok a, l)) (sym (append-nil log)))

  -- A stop among later calls, and among the first ones.
  later_stop :
      {A : Type 0} (log vs ws : List X) (r : Result A × List X)
      → all_pass vs ≡ true
      → Stopped (log ++ vs) ws r
      → Stopped log (vs ++ ws) r
  later_stop log vs ws r fine s = record {
    message = s.message;
    first = vs ++ s.first;
    failing = s.failing;
    rest = s.rest;
    result = s.result ∙ ap (λ l. (crash s.message, l)) (append_assoc log vs s.first);
    split = append_assoc vs s.first (s.failing ∷ s.rest) ∙ ap (λ (l : List X). vs ++ l) s.split;
    good = all_pass-append vs s.first fine s.good;
    bad = s.bad;
  }

  early_stop :
      {A B : Type 0} (log vs ws : List X) (r : Result A × List X) (s : Stopped log vs r)
      → Stopped {A = B} log (vs ++ ws) (crash s.message, log ++ s.first)
  early_stop log vs ws r s = record {
    message = s.message;
    first = s.first;
    failing = s.failing;
    rest = s.rest ++ ws;
    result = refl;
    split =
        sym (append_assoc s.first (s.failing ∷ s.rest) ws) ∙ ap (λ (l : List X). l ++ ws) s.split;
    good = s.good;
    bad = s.bad;
  }

  module _ {A B : Type 0} (m : Exec (List X) A) (f : A → Exec (List X) B) (vs ws : List X)
      (log : List X) where
    behind :
        (r : Result B × List X)
        → all_pass vs ≡ true
        → Outcome (log ++ vs) ws r
        → Outcome log (vs ++ ws) r
    behind r fine (completed b g e) =
        completed b (all_pass-append vs ws fine g)
          (e ∙ ap (λ l. (ok b, l)) (append_assoc log vs ws))
    behind r fine (stopped s) = stopped (later_stop log vs ws r fine s)

    then_Notes :
        ((a : A) → Notes (f a) ws) → Outcome log vs (m log) → Outcome log (vs ++ ws) ((m >>= f) log)
    then_Notes h (completed a g e) =
        subst (λ (r : Result A × List X). Outcome log (vs ++ ws) (((λ _. r) >>= f) log)) (sym e)
          (behind (f a (log ++ vs)) g (h a (log ++ vs)))
    then_Notes h (stopped s) =
        subst (λ (r : Result A × List X). Outcome log (vs ++ ws) (((λ _. r) >>= f) log))
          (sym s.result) (stopped (early_stop log vs ws (m log) s))

  Notes-bind :
      {A B : Type 0} {m : Exec (List X) A} {f : A → Exec (List X) B} {vs ws : List X}
      → Notes m vs
      → ((a : A) → Notes (f a) ws)
      → Notes (m >>= f) (vs ++ ws)
  Notes-bind {m = m} {f = f} {vs = vs} {ws = ws} k h log = then_Notes m f vs ws log h (k log)

  Notes-known :
      {A B : Type 0} (r : Result A) {a : A} (f : A → Exec (List X) B) {ws : List X}
      → r ≡ ok a
      → Notes (f a) ws
      → Notes (lift r >>= f) ws
  Notes-known r f {ws = ws} e h = subst (λ r. Notes (lift r >>= f) ws) (sym e) h

  -- The run stopped in one of the calls `vs`; or all of these gave no error, and whatever became of the
  -- calls `ws` behind them, the call `last` was made at the end.
  pub data Closed {A : Type 0} (last : X) (log vs ws : List X) (r : Result A × List X)
      : Type 0 where
    before : Stopped log vs r → Closed last log vs ws r
    after :
        (q : Result A × List X)
        → all_pass vs ≡ true
        → Outcome (log ++ vs) ws q
        → r ≡ (q.0, q.1 ++ last ∷ [])
        → Closed last log vs ws r

  module _ {A B : Type 0} (m : Exec (List X) A) (f : A → Exec (List X) B) (last : X)
      (us vs ws : List X) (log : List X) where
    behind_Closed :
        (r : Result B × List X)
        → all_pass us ≡ true
        → Closed last (log ++ us) vs ws r
        → Closed last log (us ++ vs) ws r
    behind_Closed r fine (before s) = before (later_stop log us vs r fine s)
    behind_Closed r fine (after q g o e) =
        after q (all_pass-append us vs fine g)
          (subst (λ l. Outcome l ws q) (append_assoc log us vs) o) e

    then_Closed :
        ((a : A) → (l : List X) → Closed last l vs ws (f a l))
        → Outcome log us (m log)
        → Closed last log (us ++ vs) ws ((m >>= f) log)
    then_Closed h (completed a g e) =
        subst (λ (r : Result A × List X). Closed last log (us ++ vs) ws (((λ _. r) >>= f) log))
          (sym e) (behind_Closed (f a (log ++ us)) g (h a (log ++ us)))
    then_Closed h (stopped s) =
        subst (λ (r : Result A × List X). Closed last log (us ++ vs) ws (((λ _. r) >>= f) log))
          (sym s.result) (before (early_stop log us vs (m log) s))

  -- A program whose deferred call is `last`.
  abbrev Closes : {A : Type 0} → X → Exec (List X) A → List X → List X → Type 0
  Closes last m vs ws = (log : List X) → Closed last log vs ws (m log)

  Closes-bind :
      {A B : Type 0} {m : Exec (List X) A} {f : A → Exec (List X) B} {last : X} {us vs ws : List X}
      → Notes m us
      → ((a : A) → Closes last (f a) vs ws)
      → Closes last (m >>= f) (us ++ vs) ws
  Closes-bind {m = m} {f = f} {last = last} {us = us} {vs = vs} {ws = ws} k h log =
      then_Closed m f last us vs ws log h (k log)

  Closes-known :
      {A B : Type 0} (r : Result A) {a : A} (f : A → Exec (List X) B) {last : X} {vs ws : List X}
      → r ≡ ok a
      → Closes last (f a) vs ws
      → Closes last (lift r >>= f) vs ws
  Closes-known r f {last = last} {vs = vs} {ws = ws} e h =
      subst (λ r. Closes last (lift r >>= f) vs ws) (sym e) h

module _ (lib : Libp2p) {Key : Type 0} (answers : Started lib Key → Result (Unit {0})) where
  -- The calls that give an error.
  abbrev pub checked : Started lib Key → Bool
  checked (advertised _) = false
  checked publisher = false
  checked receiver = false
  checked handlers = false
  checked (closed _) = false
  checked _ = true

  abbrev pub is_ok : Result (Unit {0}) → Bool
  is_ok (ok _) = true
  is_ok (err _) = false
  is_ok (crash _) = false

  abbrev pub passes : Started lib Key → Bool
  passes c = if checked c then is_ok (answers c) else true

  begin-Notes :
      (c : Started lib Key) → checked c ≡ true → Notes passes (begin lib answers c) (c ∷ [])
  unfolding begin
  begin-Notes c k log = go (answers c) refl
    where
      ended :
          (m : String)
          → is_ok (answers c) ≡ false
          → begin lib answers c log ≡ (crash m, log)
          → Outcome passes log (c ∷ []) (begin lib answers c log)
      ended m bad e = stopped record {
        message = m;
        first = [];
        failing = c;
        rest = [];
        result = e ∙ ap (λ (l : List (Started lib Key)). (crash m, l)) (sym (append-nil log));
        split = refl;
        good = refl;
        bad = ground (arith, k, bad);
      }

      go :
          (r : Result (Unit {0}))
          → answers c ≡ r
          → Outcome passes log (c ∷ []) (begin lib answers c log)
      go (ok _) e = completed tt (rw (k, e) refl) (rw (e, begin) refl)
      go (err _) e = ended "panic" (rw e refl) (rw (e, begin) refl)
      go (crash m) e = ended m (rw e refl) (rw (e, begin) refl)

  note-Notes :
      (c : Started lib Key) → checked c ≡ false → Notes passes (note lib answers c) (c ∷ [])
  note-Notes c k log = completed tt (rw k refl) refl

  abbrev pub relay_calls : Bool → List (Started lib Key)
  relay_calls b = if b then relay_service ∷ advertised posemesh_relay_service ∷ [] else []

  abbrev pub publisher_calls : Bool → List (Started lib Key)
  publisher_calls b = if b then publisher ∷ [] else []

  relaying-Notes : (b : Bool) → Notes passes (relaying lib answers b) (relay_calls b)
  relaying-Notes true =
      Notes-bind passes (begin-Notes relay_service refl)
        (λ _. note-Notes (advertised posemesh_relay_service) refl)
  relaying-Notes false = Notes-pure passes tt

  publishing-Notes : (b : Bool) → Notes passes (publishing lib answers b) (publisher_calls b)
  publishing-Notes true = note-Notes publisher refl
  publishing-Notes false = Notes-pure passes tt

  -- The calls before the deferred one, and those behind it.
  abbrev pub set_up : Key → Config → lib.Psk → List (Started lib Key)
  set_up key cfg psk =
      host (host_options lib key psk cfg)
      ∷ (relay_calls cfg.enable_relay
          ++ gossip_sub ∷ mdns_service ∷ joined node_info_topic ∷ peer_events ∷ [])

  abbrev pub served : Bool → List (Started lib Key)
  served talks = subscription ∷ (publisher_calls talks ++ receiver ∷ handlers ∷ [])

  serve_topic-Notes :
      (cfg : Config) (talks : Bool)
      → publishes cfg.node_types ≡ ok talks
      → Notes passes (serve_topic lib answers cfg) (served talks)
  unfolding serve_topic
  serve_topic-Notes cfg talks first = Notes-bind passes (begin-Notes subscription refl) λ _.
      Notes-known passes (publishes cfg.node_types) _ first (
        Notes-bind passes (publishing-Notes talks)
          λ _. Notes-bind passes (note-Notes receiver refl) λ _. note-Notes handlers refl)

  closing-Closes :
      (cfg : Config) (talks : Bool)
      → publishes cfg.node_types ≡ ok talks
      → Closes passes
          (closed node_info_topic)
          (closing lib answers node_info_topic (serve_topic lib answers cfg))
          []
          (served talks)
  closing-Closes cfg talks first log =
      after (serve_topic lib answers cfg log) refl
        (subst (λ l. Outcome passes l (served talks) (serve_topic lib answers cfg log))
          (sym (append-nil log)) (serve_topic-Notes cfg talks first log))
        refl

  -- Whatever libp2p refuses, where the pre-shared key can be read and a type is configured: `Start`
  -- makes its calls in one order and stops in a panic at the first whose answer is an error, so that
  -- no call is made behind one that failed, and where no answer is an error all calls are made. The
  -- order is the host with the options of the configuration, the relay service if it is asked for,
  -- the services of the node, then the publisher unless the first type is `client`, the receiver, and
  -- the handlers of the program. Once the events of the topic are there, the last call is `Close` on
  -- the topic, also behind a panic.
  pub start-Outcome :
      (key : Key) (cfg : Config) (psk : lib.Psk) (talks : Bool)
      → psk_of lib cfg ≡ ok psk
      → publishes cfg.node_types ≡ ok talks
      → Closed passes
          (closed node_info_topic)
          []
          (set_up key cfg psk)
          (served talks)
          (start lib answers key cfg [])
  unfolding start
  start-Outcome key cfg psk talks read first =
      Closes-known passes (psk_of lib cfg) _ read
        (Closes-bind passes (begin-Notes (host (host_options lib key psk cfg)) refl) λ _.
          Closes-bind passes (relaying-Notes cfg.enable_relay) λ _.
            Closes-bind passes (begin-Notes gossip_sub refl) λ _.
              Closes-bind passes (begin-Notes mdns_service refl) λ _.
                Closes-bind passes (begin-Notes (joined node_info_topic) refl) λ _.
                  Closes-bind passes (begin-Notes peer_events refl)
                    λ _. closing-Closes cfg talks first)
        []
