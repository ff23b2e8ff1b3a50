-- ===== src/Node/Start.antt =====
-- node/libp2p.go, `Start`, `createDHT` and `setupMDNS`: how the host is built and in which order the
-- services are started. The answers of libp2p are arguments; the state is what was started so far.
pub mod Failures
use libp2p_experiment.Base.{
  String, ◌<>◌, Bool, true, false, Option, none, some, List, [], ◌∷◌, ◌++◌, if◌then◌else◌, ◌==◌,
  string_eq,
}
use libp2p_experiment.Base.Effects.{
  Result, ok, err, crash, Exec, pure, raise, fatal, lift, ◌>>=◌, ◌>>◌, handle,
}
use libp2p_experiment.Config.{Config, Mode, mode_auto, mode_client, mode_server}
use libp2p_experiment.Node.{PeerId}
use libp2p_experiment.Node.Events.{publishes}
use libp2p_experiment.Node.Identity.{must}

-- What the program uses of libp2p's types: pre-shared keys and addresses of peers, with the address
-- that `make` fills a slice with.
pub record Libp2p : Type 1 where
  pub Psk : Type 0
  pub AddrInfo : Type 0
  pub no_psk : Psk
  pub no_addr : AddrInfo
  -- `pnet.DecodeV1PSK` and `peer.AddrInfoFromString`
  pub decode_psk : String → Result Psk
  pub addr_info_from_string : String → Result AddrInfo

-- `PosemeshService`, `PosemeshRelayService` and `NodeInfoTopic`
abbrev pub posemesh_service : String
posemesh_service = "posemesh"

abbrev pub posemesh_relay_service : String
posemesh_relay_service = "posemesh/relay"

abbrev pub node_info_topic : String
node_info_topic = "posemesh_nodes"

unfoldable pub port_of : Config → String
port_of cfg = if cfg.port == "" then "0" else cfg.port

unfoldable pub listen_addrs : String → List String
listen_addrs port =
    ("/ip4/0.0.0.0/tcp/" <> port)
    ∷ ("/ip4/0.0.0.0/tcp/" <> port <> "/ws")
    ∷ ("/ip4/0.0.0.0/udp/" <> port <> "/quic-v1")
    ∷ ("/ip6/::/udp/" <> port <> "/quic-v1")
    ∷ ("/ip4/0.0.0.0/udp/" <> port <> "/quic-v1/webtransport")
    ∷ ("/ip6/::/udp/" <> port <> "/quic-v1/webtransport")
    ∷ []

module _ (lib : Libp2p) where
  open lib use {Psk, AddrInfo}

  -- The pre-shared key: a text that cannot be read ends the process.
  unfoldable pub psk_of : Config → Result Psk
  psk_of cfg = if cfg.psk == "" then ok lib.no_psk else elim (lib.decode_psk cfg.psk) [
    | ok psk ↦ ok psk
    | err _ ↦ crash "psk"
    | crash m ↦ crash m
  ]

  -- The loop over the bootstrap peers: what cannot be read leaves its place in the slice as it was.
  abbrev pub addr_or_none : Result AddrInfo → AddrInfo
  addr_or_none (ok a) = a
  addr_or_none (err _) = lib.no_addr
  addr_or_none (crash _) = lib.no_addr

  unfoldable pub bootstrap_addrs : List String → List AddrInfo
  bootstrap_addrs [] = []
  bootstrap_addrs (addr ∷ addrs) =
      addr_or_none (lib.addr_info_from_string addr) ∷ bootstrap_addrs addrs

  -- The options of the distributed hash table, `opts` of `createDHT`.
  pub data DhtOption : Type 0 where
    concurrency_10 : DhtOption
    dht_mode : Mode → DhtOption
    bootstrap_peers : List AddrInfo → DhtOption
    protocol_prefix : String → DhtOption

  -- `createDHT`, with the answers of `dht.New` and `Bootstrap`.
  unfoldable pub create_dht :
      {Dht : Type 0}
      → (List DhtOption → Result Dht)
      → (Dht → Result (Unit {0}))
      → Mode
      → List AddrInfo
      → Result Dht
  create_dht {Dht} new bootstrap mode peers =
      elim (new (
        concurrency_10
        ∷ dht_mode mode
        ∷ bootstrap_peers peers
        ∷ protocol_prefix "/posemesh"
        ∷ [])) [
          | ok dht ↦ elim (bootstrap dht) [ ok _ ↦ ok dht | err e ↦ err e | crash m ↦ crash m ]
          | err e ↦ err e
          | crash m ↦ crash m
        ]

  -- The options of the host.
  pub data HostOption (Key : Type 0) : Type 0 where
    private_network : Psk → HostOption Key
    host_identity : Key → HostOption Key
    listen_addr_strings : List String → HostOption Key
    default_transports nat_port_map enable_nat_service enable_hole_punching : HostOption Key
    routing : Mode → List AddrInfo → HostOption Key
    ping_service : HostOption Key
    enable_relay enable_auto_relay force_reachability_public : HostOption Key

  -- A client can be reached over relays, every other node looks for relays itself.
  abbrev relay_option : {Key : Type 0} → Mode → HostOption Key
  relay_option mode_client = enable_relay
  relay_option mode_auto = enable_auto_relay
  relay_option mode_server = enable_auto_relay

  unfoldable pub host_options : {Key : Type 0} → Key → Psk → Config → List (HostOption Key)
  unfolding port_of listen_addrs bootstrap_addrs
  host_options key psk cfg =
      private_network psk
      ∷ host_identity key
      ∷ listen_addr_strings (listen_addrs (port_of cfg))
      ∷ default_transports
      ∷ nat_port_map
      ∷ routing cfg.mode (bootstrap_addrs cfg.bootstrap_peers)
      ∷ enable_nat_service
      ∷ enable_hole_punching
      ∷ ping_service
      ∷ relay_option cfg.mode
      ∷ (if cfg.enable_relay then force_reachability_public ∷ [] else [])

  -- What is started, in the order of the calls.
  pub data Started (Key : Type 0) : Type 0 where
    host : List (HostOption Key) → Started Key
    relay_service : Started Key
    advertised : String → Started Key
    gossip_sub mdns_service : Started Key
    joined : String → Started Key
    peer_events subscription publisher receiver handlers : Started Key
    closed : String → Started Key

  module _ {Key : Type 0} (answers : Started Key → Result (Unit {0})) where
    -- One call: what is started is noted, and an error panics.
    unfoldable pub begin : Started Key → Exec (List (Started Key)) (Unit {0})
    begin c log = elim (answers c) [
      | ok _ ↦ (ok tt, log ++ c ∷ [])
      | err _ ↦ (crash "panic", log)
      | crash m ↦ (crash m, log)
    ]

    -- A call that gives no error.
    abbrev pub note : Started Key → Exec (List (Started Key)) (Unit {0})
    note c log = (ok tt, log ++ c ∷ [])

    abbrev pub relaying : Bool → Exec (List (Started Key)) (Unit {0})
    relaying true = begin relay_service >> note (advertised posemesh_relay_service)
    relaying false = pure tt

    abbrev pub publishing : Bool → Exec (List (Started Key)) (Unit {0})
    publishing true = note publisher
    publishing false = pure tt

    -- `defer topic.Close()`, which a panic runs too.
    abbrev pub closing :
        String → Exec (List (Started Key)) (Unit {0}) → Exec (List (Started Key)) (Unit {0})
    closing topic m log = ((m log).0, (m log).1 ++ closed topic ∷ [])

    -- `Start` behind the deferred call.
    unfoldable pub serve_topic : Config → Exec (List (Started Key)) (Unit {0})
    unfolding begin
    serve_topic cfg = do
      begin subscription
      talks ← lift (publishes cfg.node_types)
      publishing talks
      note receiver
      note handlers

    -- `Start`
    unfoldable pub start : Key → Config → Exec (List (Started Key)) (Unit {0})
    unfolding host_options psk_of begin serve_topic
    start key cfg = do
      psk ← lift (psk_of cfg)
      begin (host (host_options key psk cfg))
      relaying cfg.enable_relay
      begin gossip_sub
      begin mdns_service
      begin (joined node_info_topic)
      begin peer_events
      closing node_info_topic (serve_topic cfg)

-- The goroutine of `setupMDNS`, on the peers that are found in the local network: each is connected
-- to, and a failure goes on to the next. The peers that were connected to are noted.
unfoldable pub mdns_loop : {A : Type 0} → (A → Result (Unit {0})) → List A → List A
mdns_loop connect [] = []
mdns_loop connect (p ∷ found) =
    let rest = mdns_loop connect found in
    elim (connect p) [ ok _ ↦ p ∷ rest | err _ ↦ rest | crash _ ↦ rest ]

-- `FindPeerAddresses`: `find` is `FindPeer` of the hash table.
unfoldable pub find_peer_addresses : {A : Type 0} → (PeerId → Result A) → PeerId → Result A
find_peer_addresses find id = elim (find id) [ ok a ↦ ok a | err e ↦ err e | crash m ↦ crash m ]
