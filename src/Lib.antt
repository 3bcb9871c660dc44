-- ===== src/Lib.antt =====
-- Verification of consentry's peer and request bookkeeping.
--
-- The program is the networking library of a consensus client. Three parts of it are modelled.
--
-- `Rpc` is src/rpc: the messages and codes of methods.rs (Rpc/Methods), the protocol identifiers and
-- the functions on requests of protocol.rs and outbound.rs (Rpc/Protocol), what the behaviour and
-- the handlers tell each other (Rpc/Messages, of src/rpc/mod.rs), and the request limiter of
-- rate_limiter.rs (Rpc/RateLimiter). `RPCRateLimiter::allows` is `allows_request`: it takes the
-- expected responses and the protocol of a request, and asks that protocol's `Limiter`, whose `allows`
-- and `prune` have the names of the code. `Duration`s and instants are nanoseconds; the clock is an
-- argument; arithmetic on `u64` wraps, as in a release build, unless the code saturates it.
--
-- `RPCHandler` of src/rpc/handler.rs is Rpc/Handler: its state, `shutdown`, `send_request` and
-- `send_response`; the calls of the swarm and `connection_keep_alive` are in Handler/Inject, the
-- driving of one inbound substream in Handler/Streams, and `poll` in Handler/Poll, split where the code
-- returns. The futures, streams and timers that `poll` polls are third-party objects: what they answer
-- is its argument `Answers`, any value of it. A substream is the list of the messages that were sent on
-- it. Handler/Swarm has the handler's calls as a step relation `Step` on the handler with its
-- surroundings: the substreams in negotiation, each of which the swarm answers once, by
-- `inject_fully_negotiated_outbound` or `inject_dial_upgrade_error`, and the events that were reported.
-- The counter of outbound substreams is taken not to overflow. Its `Reaches` are all sequences of calls.
--
-- The codec of src/rpc/codec is Rpc/Codec: requests in Codec/Requests, responses in Codec/Responses, both
-- of ssz_snappy.rs, and the response code of base.rs in Codec/Base. Where the code changes a codec and
-- a buffer in place, a function here returns the result, the codec and what is left of the buffer. The
-- crates it calls are a record `Outside`, whose laws are fields: SSZ gives back what it wrote, the
-- varint of a length needs no byte behind it, frames are no longer than `max_compress_len` says, and
-- the reader of frames meets the end of its input only behind all of it.
--
-- The behaviour of src/rpc/mod.rs is Rpc/Behaviour: `inject_event`, `poll` and the calls of the
-- application, on the limiter and the queue of actions. Behaviour/Order puts the calls in sequence,
-- Behaviour/Quota takes the part of a sequence that is meant for one protocol's limiter.
--
-- `Gossip` is src/types/topics.rs: the text of a topic and its decoding. The crate hex is a parameter;
-- texts (Common/Text) and the decimal numbers of the standard library (Common/Decimal) are lists of
-- code points. A `u64` has at most twenty digits, which is the fuel of its printing; the fuel of
-- `trim_start_matches` is the length of the text.
--
-- src/network/gossip_cache.rs is Gossip/Cache, without the setters of the builder. The delay queue of tokio is a record `DelayQueue` of its
-- operations and of what a key stands for, whose laws are fields; the key that expires is an argument.
-- Where a build with debug assertions panics, the model is the build without them. Cache/Runs puts the
-- calls in sequence.
--
-- `PeerManager` is src/peer_manager: the scores of peerdb/score.rs (PeerManager/Score), the sync
-- status of peerdb/sync_status.rs (PeerManager/SyncStatus), a peer's entry of peerdb/peer_info.rs
-- (PeerManager/PeerInfo), and peerdb.rs: the counts of banned peers (PeerManager/BannedPeers), the
-- database and `update_connection_state` (PeerManager/PeerDb), `shrink_to_fit` and
-- `inject_disconnect` (PeerDb/Limits), the reports and score updates (PeerDb/Scores), and the getters
-- and small operations (PeerDb/Queries). The match of `update_connection_state` is split by the new
-- state into `to_connected`, `to_dialing`, `to_disconnected`, `to_disconnecting`, `to_banned` and
-- `to_unbanned`, on a record `Local` of what the match borrows: the peer's entry and the two counters.
-- PeerDb/Runs puts the operations in sequence. A database is coherent, in what follows, when each peer
-- stands once and each counter is the sum over the peers of what a peer counts for.
--
-- src/peer_manager/mod.rs is PeerManager/Manager, on that database: reports, goodbyes, bans and
-- connections in the parent, `handle_rpc_error` in Manager/Errors, pings and metadata in
-- Manager/Messages, `peers_discovered`, `maintain_peer_count` and `maintain_sync_committee_peers` in
-- Manager/Discovery, `prune_excess_peers` in Manager/Selection with its
-- stages in Manager/Pruning and Manager/Grouping, `heartbeat` in Manager/Heartbeat, and the
-- behaviour of network_behaviour.rs in Manager/Swarm: its `poll` takes what the timers answer.
-- Manager/Subnets has the long-lived subnets of peer_info.rs. The limits that the code computes in
-- `f32` are the functions of a record `Sizes`. A shuffle of `rand` is a function that permutes. The
-- third stage of the pruning takes for fuel the number of peers on all subnets, and one more: a round
-- takes one off, or empties a subnet.
--
-- A `HashMap` is an association list (Common/Assoc), whose order is the order of iteration, and a
-- `HashSet` a list. Peer identifiers are numbers. `f64` is a type parameter with the operations that
-- the code calls (`F64`); what a theorem needs of them are hypotheses (`Literals`, `Order`). An ENR and
-- a listening address are type parameters, since the code only stores them, but for the two bitfields
-- of an ENR, whose accessors are a record `EnrFields`; a bitfield is the list of
-- its bits, and a multiaddress the list of its protocols. The gossipsub score of a peer, and the
-- rounded-up tenth of the target number of peers, are arguments.
--
-- The loops of `shrink_to_fit` take for fuel the counter that the loop's test reads, which each round
-- lowers by one. `HasRoom` says that twice the number of peers and
-- seen addresses, four for each call to come, and two more are below 2^64.
--
-- Not modelled: logging and metrics, the client's agent string and `identify`, the lists of the best
-- peers by a status, the memory that a queue sets aside, formatting and serialization, the upgrade of a substream, discovery, the gossip messages,
-- and the service around them.
pub mod Common
pub mod Rpc
pub mod Gossip
pub mod PeerManager
