-- ===== src/PeerManager/BannedPeers.antt =====
-- `BannedPeersCount` of src/peer_manager/peerdb.rs: how many peers are banned, in all and by address.
use consentry.Common.Assoc
use consentry.Common.{
  if◌then◌else◌, ℕ, ◌+◌, ◌-◌, ◌<◌, ◌≡◌, u64, u64_mod, saturating_add, ltb, Bool, false, Option,
  none, some, List, [], ◌∷◌, ite, arith, Option-cases, inl, inr,
}
use consentry.PeerManager.PeerInfo.{IpAddr, IpAddr-discrete}

abbrev pub banned_peers_per_ip_threshold : ℕ
banned_peers_per_ip_threshold = 5

pub record BannedPeersCount : Type 0 where
  pub banned_peers : ℕ
  pub banned_peers_per_ip : List (IpAddr × ℕ)

-- `impl Default for BannedPeersCount`
abbrev pub default : BannedPeersCount
default = record { banned_peers = 0; banned_peers_per_ip = [] }

abbrev lookup : IpAddr → List (IpAddr × ℕ) → Option ℕ
lookup = Assoc.get IpAddr-discrete

abbrev count_or_zero : Option ℕ → ℕ
count_or_zero none = 0
count_or_zero (some n) = n

-- The loop of `remove_banned_peer`; an address that has no count is skipped.
release : List IpAddr → List (IpAddr × ℕ) → List (IpAddr × ℕ)
release [] m = m
release (ip ∷ ips) m =
    release ips
      (elim (lookup ip m) [ none ↦ m | some count ↦ Assoc.insert IpAddr-discrete ip (count - 1) m ])

-- The loop of `add_banned_peer`.
charge : List IpAddr → List (IpAddr × ℕ) → List (IpAddr × ℕ)
charge [] m = m
charge (ip ∷ ips) m =
    charge ips (Assoc.insert IpAddr-discrete ip (u64 (count_or_zero (lookup ip m) + 1)) m)

-- `BannedPeersCount::remove_banned_peer`
unfoldable pub remove_banned_peer : BannedPeersCount → List IpAddr → BannedPeersCount
unfolding release
remove_banned_peer c ips = record {
  banned_peers = c.banned_peers - 1;
  banned_peers_per_ip = release ips c.banned_peers_per_ip;
}

-- `BannedPeersCount::add_banned_peer`
unfoldable pub add_banned_peer : BannedPeersCount → List IpAddr → BannedPeersCount
unfolding charge
add_banned_peer c ips = record {
  banned_peers = saturating_add c.banned_peers 1;
  banned_peers_per_ip = charge ips c.banned_peers_per_ip;
}

over_threshold : Option ℕ → Bool
over_threshold none = false
over_threshold (some count) = ltb banned_peers_per_ip_threshold count

-- `BannedPeersCount::ip_is_banned`
unfoldable pub ip_is_banned : BannedPeersCount → IpAddr → Bool
unfolding over_threshold
ip_is_banned c ip = over_threshold (lookup ip c.banned_peers_per_ip)

over : List (IpAddr × ℕ) → List IpAddr
over [] = []
over ((ip, count) ∷ m) =
    let rest = over m in if ltb banned_peers_per_ip_threshold count then ip ∷ rest else rest

-- `BannedPeersCount::banned_ips`
unfoldable pub banned_ips : BannedPeersCount → List IpAddr
unfolding over
banned_ips c = over c.banned_peers_per_ip

-- How often an address stands in a list.
unfoldable pub occurrences : IpAddr → List IpAddr → ℕ
occurrences ip [] = 0
occurrences ip (a ∷ rest) = ite (IpAddr-discrete a ip) 1 0 + occurrences ip rest

-- The count of an address, zero if it has none.
unfoldable pub count_of : BannedPeersCount → IpAddr → ℕ
count_of c ip = count_or_zero (lookup ip c.banned_peers_per_ip)

count-release :
    (ip : IpAddr) (ips : List IpAddr) (m : List (IpAddr × ℕ))
    → count_or_zero (lookup ip (release ips m)) ≡ count_or_zero (lookup ip m) - occurrences ip ips
unfolding release occurrences
count-release ip [] m = omega arith
count-release ip (a ∷ rest) m = elim (Option-cases (lookup a m)) [
  | inl absent ↦ rw (absent, release) (ground (arith, count-release ip rest m))
  | inr (n, e) ↦
      rw (e, release)
        (ground (
          arith,
          count-release ip rest (Assoc.insert IpAddr-discrete a (n - 1) m),
          Assoc.get-insert IpAddr-discrete a ip (n - 1) m,
        ))
]

-- Taking a banned peer out lowers each address's count by how often the peer has it.
pub count_of-remove_banned_peer :
    (c : BannedPeersCount) (ips : List IpAddr) (ip : IpAddr)
    → count_of (remove_banned_peer c ips) ip ≡ count_of c ip - occurrences ip ips
unfolding count_of remove_banned_peer
count_of-remove_banned_peer c ips ip = count-release ip ips c.banned_peers_per_ip

count-charge :
    (ip : IpAddr) (ips : List IpAddr) (m : List (IpAddr × ℕ))
    → count_or_zero (lookup ip m) + occurrences ip ips < u64_mod
    → count_or_zero (lookup ip (charge ips m)) ≡ count_or_zero (lookup ip m) + occurrences ip ips
unfolding charge occurrences
count-charge ip [] m h = omega arith
count-charge ip (a ∷ rest) m h = ground (
  arith,
  count-charge ip rest (Assoc.insert IpAddr-discrete a (u64 (count_or_zero (lookup a m) + 1)) m),
  Assoc.get-insert IpAddr-discrete a ip (u64 (count_or_zero (lookup a m) + 1)) m,
)

-- Adding one raises it likewise, while the count fits its word.
pub count_of-add_banned_peer :
    (c : BannedPeersCount) (ips : List IpAddr) (ip : IpAddr)
    → count_of c ip + occurrences ip ips < u64_mod
    → count_of (add_banned_peer c ips) ip ≡ count_of c ip + occurrences ip ips
unfolding count_of add_banned_peer
count_of-add_banned_peer c ips ip h = count-charge ip ips c.banned_peers_per_ip h

-- The test for a banned address reads the count.
pub ip_is_banned-count_of :
    (c : BannedPeersCount) (ip : IpAddr)
    → ip_is_banned c ip ≡ ltb banned_peers_per_ip_threshold (count_of c ip)
unfolding ip_is_banned count_of
ip_is_banned-count_of c ip = ground arith
