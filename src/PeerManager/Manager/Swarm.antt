-- ===== src/PeerManager/Manager/Swarm.antt =====
-- The peer manager as a behaviour of the swarm: src/peer_manager/network_behaviour.rs. What the timers
-- that `poll` polls answer is an argument, as is whether the node is syncing.
use consentry.Common.{
  ℕ, ◌==◌, ltb, if◌then◌else◌, Bool, true, false, not, ◌&&◌, Option, none, some, List, [], ◌∷◌,
  ℕ_discrete,
}
use consentry.Rpc.Methods.{GoodbyeReason}
use consentry.PeerManager.Score.{F64}
use consentry.PeerManager.PeerInfo.{PeerInfo, insert_new, has_future_duty, is_connected}
use consentry.PeerManager.PeerDb.{Part, BanResult}
use consentry.PeerManager.PeerDb.Queries.{peer_info, ban_status, is_connected_or_disconnecting}
use consentry.PeerManager.Manager.{
  Manager, Sizes, PeerManagerEvent, dialing, ingoing_connected, outgoing_connected, push,
  goodbye_peer, disconnect_the_peer, inject_disconnect, inject_peer_connection, peer_limit_reached,
}
use consentry.PeerManager.Manager.Subnets.{EnrFields}
use consentry.PeerManager.Manager.Heartbeat.{heartbeat}

pub data ConnectedPoint : Type 0 where
  listener dialer : List Part → ConnectedPoint

abbrev pub is_listener : ConnectedPoint → Bool
is_listener (listener _) = true
is_listener (dialer _) = false

-- The expired timers are the peers whose time has come, `none` for an error, up to the first that is
-- pending; `ticks` are the instants at which the heartbeat is due, with the shuffles of each.
pub record Due (F E M : Type 0) : Type 0 where
  pub ticks : List (ℕ × (ℕ → List (ℕ × PeerInfo F E M) → List (ℕ × PeerInfo F E M)))
  pub inbound_ping : List (Option ℕ)
  pub outbound_ping : List (Option ℕ)
  pub status : List (Option ℕ)
  pub is_syncing : Bool

pub data Action : Type 0 where
  generate_event : PeerManagerEvent → Action
  dial : ℕ → Action
  pending : Action

module _ {F E M : Type 0} where
  unfoldable pub ping_inbound : Manager F E M → List (Option ℕ) → Manager F E M
  ping_inbound m [] = m
  ping_inbound m (none ∷ rest) = ping_inbound m rest
  ping_inbound m (some peer_id ∷ rest) =
      ping_inbound
        (record (push m (PeerManagerEvent.ping peer_id)) {
          inbound_ping_peers = insert_new ℕ_discrete peer_id m.inbound_ping_peers;
        })
        rest

  unfoldable pub ping_outbound : Manager F E M → List (Option ℕ) → Manager F E M
  ping_outbound m [] = m
  ping_outbound m (none ∷ rest) = ping_outbound m rest
  ping_outbound m (some peer_id ∷ rest) =
      ping_outbound
        (record (push m (PeerManagerEvent.ping peer_id)) {
          outbound_ping_peers = insert_new ℕ_discrete peer_id m.outbound_ping_peers;
        })
        rest

  unfoldable pub send_status : Manager F E M → List (Option ℕ) → Manager F E M
  send_status m [] = m
  send_status m (none ∷ rest) = send_status m rest
  send_status m (some peer_id ∷ rest) =
      send_status
        (record (push m (PeerManagerEvent.status peer_id)) {
          status_peers = insert_new ℕ_discrete peer_id m.status_peers;
        })
        rest

module _ {F E M : Type 0} (f : F64 F) (enr : EnrFields E) (sizes : Sizes) where
  unfoldable pub beat :
      Manager F E M
      → List (ℕ × (ℕ → List (ℕ × PeerInfo F E M) → List (ℕ × PeerInfo F E M)))
      → Manager F E M
  beat m [] = m
  beat m ((now, shuffles) ∷ rest) = beat (heartbeat f enr now sizes shuffles m) rest

  -- `poll` up to the events.
  unfoldable pub run_timers : Manager F E M → Due F E M → Manager F E M
  run_timers m due =
      let pinged =
        ping_outbound (ping_inbound (beat m due.ticks) due.inbound_ping) due.outbound_ping in
      if due.is_syncing then pinged else send_status pinged due.status

  abbrev next_dial : ℕ → Manager F E M → List (ℕ × (Option E × Bool)) → Manager F E M × Action
  next_dial now m [] = (m, pending)
  next_dial now m ((peer_id, (maybe_enr, trusted)) ∷ rest) = (
    inject_peer_connection f now (record m { peers_to_dial = rest }) peer_id (dialing trusted)
        maybe_enr,
    dial peer_id,
  )

  abbrev next_action : ℕ → Manager F E M → List PeerManagerEvent → Manager F E M × Action
  next_action now m (event ∷ events) = (record m { events = events }, generate_event event)
  next_action now m [] = next_dial now m m.peers_to_dial

  -- `poll`
  unfoldable pub poll : ℕ → Manager F E M → Due F E M → Manager F E M × Action
  poll now m due = let m' = run_timers m due in next_action now m' m'.events

module _ {F E M : Type 0} (f : F64 F) (sizes : Sizes) (now : ℕ) where
  abbrev has_duty : Option (PeerInfo F E M) → Bool
  has_duty none = false
  has_duty (some peer) = has_future_duty peer now

  abbrev register : Manager F E M → ℕ → ConnectedPoint → Manager F E M
  register m peer_id (listener send_back_addr) =
      push (inject_peer_connection f now m peer_id (ingoing_connected send_back_addr) none)
        (PeerManagerEvent.peer_connected_incoming peer_id)
  register m peer_id (dialer address) =
      push (inject_peer_connection f now m peer_id (outgoing_connected address) none)
        (PeerManagerEvent.peer_connected_outgoing peer_id)

  -- The connection by the ban status of the peer.
  abbrev pub admit : Manager F E M → ℕ → ConnectedPoint → BanResult → Manager F E M
  admit m peer_id endpoint BanResult.bad_score = goodbye_peer f now m peer_id GoodbyeReason.banned
  admit m peer_id endpoint (BanResult.banned_ip ip_addr) =
      goodbye_peer f now m peer_id GoodbyeReason.banned_ip
  admit m peer_id endpoint BanResult.not_banned =
      if peer_limit_reached sizes m (is_listener endpoint)
        && not (has_duty (peer_info m.peers peer_id))
      then disconnect_the_peer f now m peer_id GoodbyeReason.too_many_peers
      else register m peer_id endpoint

  abbrev pub request_meta_data : Manager F E M → ℕ → ℕ → Manager F E M
  request_meta_data m peer_id other_established =
      if other_established == 0 then push m (PeerManagerEvent.meta_data peer_id) else m

  -- `inject_connection_established`
  unfoldable pub inject_connection_established :
      Manager F E M → ℕ → ConnectedPoint → ℕ → Manager F E M
  inject_connection_established m peer_id endpoint other_established =
      admit (request_meta_data m peer_id other_established) peer_id endpoint
        (ban_status f m.peers peer_id)

  -- `inject_connection_closed`
  unfoldable pub inject_connection_closed : Manager F E M → ℕ → ℕ → Manager F E M
  inject_connection_closed m peer_id remaining_established =
      if ltb 0 remaining_established
      then m
      else inject_disconnect f now
          (if is_connected_or_disconnecting m.peers peer_id
            then push m (PeerManagerEvent.peer_disconnected peer_id)
            else m)
          peer_id

  abbrev is_known_connected : Option (PeerInfo F E M) → Bool
  is_known_connected none = false
  is_known_connected (some info) = is_connected info

  -- `inject_dial_failure`
  unfoldable pub inject_dial_failure : Manager F E M → Option ℕ → Manager F E M
  inject_dial_failure m none = m
  inject_dial_failure m (some peer_id) =
      if is_known_connected (peer_info m.peers peer_id)
      then m
      else inject_disconnect f now m peer_id
