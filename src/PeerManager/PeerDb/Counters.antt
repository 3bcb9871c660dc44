-- ===== src/PeerManager/PeerDb/Counters.antt =====
-- The counters of the database against the peers that it holds: what one transition does to both.
use consentry.Common.{
  ℕ, ◌+◌, ◌≤◌, ◌<◌, ◌≡◌, u64_mod, if◌then◌else◌, Bool, false, Option, List, length, arith,
}
use consentry.PeerManager.PeerInfo.{
  PeerInfo, ConnectionDirection, IpAddr, is_banned, is_disconnected, seen_ip_addresses,
  connect_ingoing, connect_outgoing, set_dialing_peer, insert_new,
}
use consentry.PeerManager.BannedPeers.{
  count_of, occurrences, remove_banned_peer, add_banned_peer, count_of-remove_banned_peer,
  count_of-add_banned_peer,
}
use consentry.PeerManager.PeerDb.{
  Local, NewConnectionState, Part, transition, to_connected, to_dialing, to_disconnected,
  to_disconnecting, to_banned, to_unbanned,
}

module _ {F E M : Type 0} where
  -- What a peer counts for: among the disconnected, among the banned, and for each address.
  abbrev pub as_disconnected : PeerInfo F E M → ℕ
  as_disconnected i = if is_disconnected i then 1 else 0

  abbrev pub as_banned : PeerInfo F E M → ℕ
  as_banned i = if is_banned i then 1 else 0

  abbrev pub as_banned_at : IpAddr → PeerInfo F E M → ℕ
  as_banned_at ip i = if is_banned i then occurrences ip (seen_ip_addresses i) else 0

  -- The counters count this peer, and there is room for one peer more.
  pub record Counted (x : Local F E M) : Type 0 where
    pub disconnected_in : as_disconnected x.info ≤ x.disconnected_count
    pub disconnected_room : x.disconnected_count + 1 < u64_mod
    pub banned_in : as_banned x.info ≤ x.banned_count.banned_peers
    pub banned_room : x.banned_count.banned_peers + 1 < u64_mod
    pub at_in : (ip : IpAddr) → as_banned_at ip x.info ≤ count_of x.banned_count ip
    pub at_room :
        (ip : IpAddr)
        → count_of x.banned_count ip + occurrences ip (seen_ip_addresses x.info) < u64_mod

  -- The counters move as the peer's own contributions do.
  pub record Follows (x y : Local F E M) : Type 0 where
    pub disconnected :
        y.disconnected_count + as_disconnected x.info
        ≡ x.disconnected_count + as_disconnected y.info
    pub banned :
        y.banned_count.banned_peers + as_banned x.info
        ≡ x.banned_count.banned_peers + as_banned y.info
    pub at :
        (ip : IpAddr)
        → count_of y.banned_count ip + as_banned_at ip x.info
          ≡ count_of x.banned_count ip + as_banned_at ip y.info

module _ {F E M : Type 0} (now : ℕ) where
  unban-Follows : (x : Local F E M) → Counted x → Follows x (to_unbanned now x)
  unfolding to_unbanned
  unban-Follows x c = record {
    disconnected = ground arith;
    banned = unfold remove_banned_peer in ground arith;
    at = λ ip.
        let inside = c.at_in ip in
        ground (arith, count_of-remove_banned_peer x.banned_count (seen_ip_addresses x.info) ip);
  }

  ban-Follows : (x : Local F E M) → Counted x → Follows x (to_banned now x).0
  unfolding to_banned
  ban-Follows x c = record {
    disconnected = ground arith;
    banned = unfold add_banned_peer in ground arith;
    at = λ ip.
        let room = c.at_room ip in
        ground (arith, count_of-add_banned_peer x.banned_count (seen_ip_addresses x.info) ip);
  }

  disconnect-Follows : (x : Local F E M) → Counted x → Follows x (to_disconnected now x).0
  unfolding to_disconnected
  disconnect-Follows x c = record {
    disconnected = ground arith;
    banned = unfold add_banned_peer in ground arith;
    at = λ ip.
        let room = c.at_room ip in
        ground (arith, count_of-add_banned_peer x.banned_count (seen_ip_addresses x.info) ip);
  }

  -- The one transition that loses count: a banned peer that is set to disconnecting.
  disconnecting-Follows :
      (x : Local F E M) (to_ban : Bool)
      → is_banned x.info ≡ false
      → Counted x
      → Follows x (to_disconnecting now to_ban x)
  unfolding to_disconnecting
  disconnecting-Follows x to_ban n c = record {
    disconnected = ground arith;
    banned = ground arith;
    at = λ ip. let inside = c.at_in ip in ground arith;
  }

  dial-Follows :
      (x : Local F E M) (trusted : Bool) (enr : Option E)
      → Counted x
      → Follows x (to_dialing now trusted enr x)
  unfolding to_dialing set_dialing_peer
  dial-Follows x trusted enr c = record {
    disconnected = ground arith;
    banned = unfold remove_banned_peer in ground arith;
    at = λ ip.
        let inside = c.at_in ip in
        ground (arith, count_of-remove_banned_peer x.banned_count (seen_ip_addresses x.info) ip);
  }

  connect-Follows :
      (x : Local F E M) (enr : Option E) (seen : List Part) (d : ConnectionDirection)
      → Counted x
      → Follows x (to_connected now enr seen d x)
  unfolding to_connected connect_ingoing connect_outgoing
  connect-Follows x enr seen d c = record {
    disconnected = ground arith;
    banned = unfold remove_banned_peer in ground arith;
    at = λ ip.
        let inside = c.at_in ip in
        ground (arith, count_of-remove_banned_peer x.banned_count (seen_ip_addresses x.info) ip);
  }

  -- Every transition but one follows the peer: the exception sets a banned peer to disconnecting.
  abbrev pub IsCounted : NewConnectionState E → PeerInfo F E M → Type 0
  IsCounted (NewConnectionState.disconnecting _) i = is_banned i ≡ false
  IsCounted _ i = Unit {0}

  pub transition-Follows :
      (state : NewConnectionState E) (x : Local F E M)
      → IsCounted state x.info
      → Counted x
      → Follows x (transition now state x).0
  transition-Follows (NewConnectionState.connected enr seen d) x n c =
      connect-Follows x enr seen d c
  transition-Follows (NewConnectionState.disconnecting to_ban) x n c =
      disconnecting-Follows x to_ban n c
  transition-Follows (NewConnectionState.dialing trusted enr) x n c = dial-Follows x trusted enr c
  transition-Follows NewConnectionState.disconnected x n c = disconnect-Follows x c
  transition-Follows NewConnectionState.banned x n c = ban-Follows x c
  transition-Follows NewConnectionState.unbanned x n c = unban-Follows x c

  -- A transition adds one seen address at most.
  pub transition-seen :
      (state : NewConnectionState E) (x : Local F E M)
      → length (transition now state x).0.info.seen_addresses ≤ length x.info.seen_addresses + 1
  unfolding to_connected to_dialing to_disconnected to_disconnecting to_banned to_unbanned
      set_dialing_peer connect_ingoing connect_outgoing insert_new
  transition-seen (NewConnectionState.connected enr seen d) x = ground arith
  transition-seen (NewConnectionState.disconnecting to_ban) x = ground arith
  transition-seen (NewConnectionState.dialing trusted enr) x = ground arith
  transition-seen NewConnectionState.disconnected x = ground arith
  transition-seen NewConnectionState.banned x = ground arith
  transition-seen NewConnectionState.unbanned x = ground arith
