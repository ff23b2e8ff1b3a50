-- ===== src/Lib.antt =====
-- A verification library for the posemesh peer-to-peer experiment: nodes that find each other over
-- libp2p, keep an identity, exchange size-prefixed FlatBuffers messages, store domain data and
-- merge partitions, and a discovery node that keeps the domains and the portals.
--
-- The parts and their files:
--   * node/libp2p.go: `Node` has the node, `AddNode` (`add_node`) and `FindNodes` (`find_nodes`);
--     `Node/Events` the goroutines of `Start` as events (`step`, `run`); `Node/Lookup`,
--     `Node/History` and `Node/Order` what the table of neighbours holds and what its answers do not
--     depend on. The mutex makes each operation one step. `Node/Start` has the options of the host
--     and the order in which `Start` starts its services, `createDHT` and `setupMDNS`.
--     `Node/Locking` has the goroutines that call `AddNode` and `FindNodes` as a step relation with
--     the mutex, and the loop over the events of the topic, which takes none; its children are about
--     the holders of the mutex, goroutines that wait, calls that overlap, and peers that leave
--     meanwhile.
--   * node/ids.go and node/multiaddress.go: `Node/Protocols`.
--   * node/peer.go: `Node/Identity` has `InitPeerIdentity` (`init_peer_identity`) and `NewNode`
--     (`new_node`); its children prove what a first and a later run do.
--   * config/config.go: `Config` has `LoadFromCliArgs` on the values of the flags.
--   * models/domain.go: `Domain`. utils/domain_cluster.go: `Cluster` has
--     `InitializeDomainCluster` (`prepare`, `invite`) and the handler of `EnableDomainCluster`
--     (`on_join`), which keeps its lists in `Member`; `Cluster/Join` puts the two together.
--   * utils/domain_data.go, utils/frame.go, utils/job.go: `Wire` has the read of one message, which
--     the three loops share; `Utils/Receive` has `ReceiveDomainData`, `Utils/Frame` and `Utils/Job`
--     the other two, and `Utils/Subscribers` has `DomainDataSubscribers`. The two modules `Stored`
--     are about the files, `Utils/Subscribers/Subscriptions` about the abstract view of the table.
--   * example/data_node/main.go: `DataNode` has `mergePartitions` and the loop over the files,
--     `DataNode/Process` `classifyDomainData` and `processPartition`, with the table of subscribers
--     and the writes to the streams as its state beside the file system; `DataNode/Download` has
--     the handler of the requests for domain data, and `DataNode/Download/Sent` what it answers;
--     `DataNode/Message` has the message of a merged partition, `DataNode/Message/Reread` how it is
--     read again.
--   * example/discovery_node/main.go: `Discovery` has the lists and the topics, `Discovery/Domains`
--     and `Discovery/Portals` the handlers, the exchange and the load at the start, which
--     `Discovery/Domains/Restart` is about; `Discovery/Portals/Exchange` is about a portal on its way
--     from one node to another; `Discovery/Start` has `SyncDomainsAndPortals` and the order of what
--     `main` does once the host runs.
--   * example/app/main.go: `App` has the display, `findDomainDataNode` and `downloadDomainData`,
--     `App/Messages` the requests and what the application sends. Its children put the application
--     and the node at the other end together: `Requested` and `Answered` a request for domain data and
--     what comes back for it, `Uploaded` and `Rounds` one uploaded message and the hundred of
--     `sendDomainData`, `Displayed` a merged partition on the display of the application, and
--     `Portals` a portal on its way over two discovery nodes.
--   * example/thc/main.go and job/job.go: `Recorder` has the job, the streams of its steps and the
--     message of a frame, `Recorder/Camera` the loop over the frames, `Recorder/Frames` is about a frame
--     at the node that gets it, `Recorder/Outputs` about the nodes that are sent frames. `Bufio` is
--     the `bufio.Writer` around each of its streams.
--     utils/ping.go: `Utils/Ping`.
--   * The main functions of the examples: `Programs` has their configurations and what they do up to
--     the start of the host, `Programs/Vision` the handlers of example/salvia and example/cbd
--     (`Programs/Vision/PoseRead` is about the pose that is written back),
--     `Programs/Dialer` how example/holepunching/dialer connects, `Programs/Application` what the
--     flags of example/app start; `Programs/Restart` is about a program that runs a second time.
--   * Libposemesh: `Posemesh` has the generated accessors of the messages, a module for each;
--     `Posemesh/Enums` the maps of the enumerations; `Posemesh/Reading` is about messages that a
--     builder made.
--   * `Base`, `Os` and `Tests` are the shared names and lemmas, the file system, and the examples;
--     `Base/Count` has lists as bags, a quotient, and `Os/Saving` a file that is created and written.
--
-- `Os` is a model of the calls of Go's `os` package: a map from paths to files and directories, with
-- paths and writes that the operating system refuses. A name that the program puts into a path is
-- taken as one name, without a separator or dots in it. A panic, `log.Fatal` and a returned error are
-- values of `Result`; what was written before them stays written.
--
-- Code that is not in the repository is a parameter: the keys and peer ids of libp2p (`Crypto`), the
-- FlatBuffers package (`FlatBuffers`, with the laws of the size prefix and of writes to a vector, and
-- `FlatBuffers/Built` with those of what a builder made, `FlatBuffers/Framed` with those of a finished
-- message read behind its size, and `FlatBuffers/Slots` about the fields of an object),
-- `encoding/json`, the regular expressions, the names of temporary files and the answers of the
-- network.
--
-- The loop of `ReceiveDomainData` runs on fuel: one round more than the bytes of the stream. That is
-- enough, since every round that goes on has taken at least one byte. The other loops are
-- structural. Offsets of FlatBuffers are taken modulo 2 ^ 32, as `UOffsetT` is.
--
-- A partition is kept apart from the buffer of the message that it is a view of, since the id and
-- the name of the message stand elsewhere in that buffer. A map is met by `range` in the order of
-- the association list, since Go leaves that order open.
--
-- Not modelled: what libp2p does with its options, the channel of mDNS and the goroutine that prints
-- the connections; the waits for other nodes and for signals; the loop of example/app that connects
-- over a relay, and the ping of example/mdns; the login of example/thc, which nothing calls; the
-- random test data of utils/domain_data.go; most mutators and builder calls that the FlatBuffers
-- compiler generated and that nothing calls; logging.
--
-- The steps of `Node/Locking` have `Lock` announce itself before it waits for the readers, and `RLock`
-- wait for an announced `Lock`, as `sync.RWMutex` does. They take the lookup and the write of `AddNode`
-- as one step each, and one entry of the loop of `FindNodes` as one; Go's own reports of concurrent
-- use of a map are left out.
pub mod Base
pub mod Os
pub mod Crypto
pub mod FlatBuffers
pub mod Posemesh
pub mod Wire
pub mod Utils
pub mod DataNode
pub mod Domain
pub mod Bufio
pub mod Cluster
pub mod Discovery
pub mod Node
pub mod Config
pub mod Tests
pub mod App
pub mod Recorder
pub mod Programs
