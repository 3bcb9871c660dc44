-- ===== src/PeerManager/Manager/Messages.antt =====
-- What the peer manager of src/peer_manager/mod.rs does on pings, pongs and metadata, and on new
-- gossipsub scores.
use consentry.Common.{ℕ, ltb, if◌then◌else◌, Option, none, some, ℕ_discrete}
use consentry.PeerManager.Score.{F64}
use consentry.PeerManager.PeerInfo.{
  PeerInfo, MetaData, ConnectionDirection, incoming, outgoing, insert_new,
}
use consentry.PeerManager.PeerDb.Scores
use consentry.PeerManager.PeerDb.Queries.{peer_info}
use consentry.PeerManager.Manager.{
  Manager, PeerManagerEvent, push, write_info, handle_score_actions,
}

module _ {F E M : Type 0} where
  -- The sequence number is unknown: the metadata is asked for.
  abbrev pub request_newer : Manager F E M → ℕ → ℕ → Option MetaData → Manager F E M
  request_newer m peer_id seq none = push m (PeerManagerEvent.meta_data peer_id)
  request_newer m peer_id seq (some known) =
      if ltb known.seq_number seq then push m (PeerManagerEvent.meta_data peer_id) else m

  abbrev reset_ping : Manager F E M → ℕ → Option ConnectionDirection → Manager F E M
  reset_ping m peer_id none = m
  reset_ping m peer_id (some incoming) = record m {
    inbound_ping_peers = insert_new ℕ_discrete peer_id m.inbound_ping_peers;
  }
  reset_ping m peer_id (some outgoing) = record m {
    outbound_ping_peers = insert_new ℕ_discrete peer_id m.outbound_ping_peers;
  }

  abbrev pinged : Manager F E M → ℕ → ℕ → Option (PeerInfo F E M) → Manager F E M
  pinged m peer_id seq none = m
  pinged m peer_id seq (some info) =
      request_newer (reset_ping m peer_id info.connection_direction) peer_id seq info.meta_data

  -- `ping_request`
  unfoldable pub ping_request : Manager F E M → ℕ → ℕ → Manager F E M
  ping_request m peer_id seq = pinged m peer_id seq (peer_info m.peers peer_id)

  abbrev ponged : Manager F E M → ℕ → ℕ → Option (PeerInfo F E M) → Manager F E M
  ponged m peer_id seq none = m
  ponged m peer_id seq (some info) = request_newer m peer_id seq info.meta_data

  -- `pong_response`
  unfoldable pub pong_response : Manager F E M → ℕ → ℕ → Manager F E M
  pong_response m peer_id seq = ponged m peer_id seq (peer_info m.peers peer_id)

  -- `meta_data_response`: also older metadata is stored.
  unfoldable pub meta_data_response : Manager F E M → ℕ → MetaData → Manager F E M
  meta_data_response m peer_id meta_data =
      write_info (λ info. record info { meta_data = some meta_data }) m peer_id
        (peer_info m.peers peer_id)

  -- `update_gossipsub_scores`; `allowed` is a tenth of the target number of peers, rounded up.
  unfoldable pub update_gossipsub_scores :
      F64 F → ℕ → Manager F E M → ℕ → (ℕ → Option F) → Manager F E M
  update_gossipsub_scores f now m allowed peer_score =
      let (peers, actions) = Scores.update_gossipsub_scores f m.peers now allowed peer_score in
      handle_score_actions (record m { peers = peers }) actions
