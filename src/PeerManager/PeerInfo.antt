-- ===== src/PeerManager/PeerInfo.antt =====
-- src/peer_manager/peerdb/peer_info.rs, and the subnet of src/types/subnet.rs. Type parameters stand
-- for what the code stores without looking into it: `F` for `f64`, `E` for an ENR, `M` for a
-- listening address. A bitfield is what the code reads of it, its bits by position.
use consentry.Common.{
  ℕ, zero, suc, ◌+◌, u8, leb, ltb, ◌==◌, if◌then◌else◌, Bool, true, false, not, ◌&&◌, ◌||◌, ite,
  Option, none, some, List, [], ◌∷◌, map, ℕ_discrete,
}
use consentry.PeerManager.Score.{F64, Score, top, real, ScoreState, PeerAction, default_real}
use consentry.PeerManager.Score
use consentry.PeerManager.SyncStatus.{SyncStatus}
use consentry.PeerManager.SyncStatus

pub data IpAddr : Type 0 where
  v4 v6 : ℕ → IpAddr

unfoldable pub IpAddr-discrete : Discrete IpAddr
IpAddr-discrete = hlevel ℕ_discrete

pub record SocketAddr : Type 0 where
  pub ip : IpAddr
  pub port : ℕ

unfoldable pub SocketAddr-discrete : Discrete SocketAddr
SocketAddr-discrete = hlevel ℕ_discrete

pub data Subnet : Type 0 where
  attestation sync_committee : ℕ → Subnet

unfoldable pub Subnet-discrete : Discrete Subnet
Subnet-discrete = hlevel ℕ_discrete

-- The superstruct of rpc/methods.rs: version 1 has no sync committee bitfield.
pub record MetaData : Type 0 where
  pub seq_number : ℕ
  pub attnets : List Bool
  pub syncnets : Option (List Bool)

pub data ConnectionDirection : Type 0 where
  incoming outgoing : ConnectionDirection

pub data PeerConnectionStatus : Type 0 where
  connected : ℕ → ℕ → PeerConnectionStatus
  disconnecting : Bool → PeerConnectionStatus
  disconnected banned dialing : ℕ → PeerConnectionStatus
  unknown : PeerConnectionStatus

pub record PeerInfo (F E M : Type 0) : Type 0 where
  pub score : Score F
  pub connection_status : PeerConnectionStatus
  pub listening_addresses : List M
  pub seen_addresses : List SocketAddr
  pub sync_status : SyncStatus
  pub meta_data : Option MetaData
  pub subnets : List Subnet
  pub min_ttl : Option ℕ
  pub is_trusted : Bool
  pub connection_direction : Option ConnectionDirection
  pub enr : Option E

-- A `HashSet` is a list in which each element stands once.
module _ {A : Type 0} (eq : Discrete A) where
  unfoldable pub contains : A → List A → Bool
  contains a [] = false
  contains a (x ∷ xs) = ite (eq x a) true (contains a xs)

  unfoldable pub insert_new : A → List A → List A
  unfolding contains
  insert_new a xs = if contains a xs then xs else a ∷ xs

  unfoldable pub delete : A → List A → List A
  delete a [] = []
  delete a (x ∷ xs) = ite (eq x a) xs (x ∷ delete a xs)

-- `BitVector::get`, with `none` out of range
unfoldable pub bit : List Bool → ℕ → Option Bool
bit [] i = none
bit (b ∷ bs) zero = some b
bit (b ∷ bs) (suc i) = bit bs i

abbrev or_false : Option Bool → Bool
or_false none = false
or_false (some b) = b

module _ {F E M : Type 0} (f : F64 F) where
  -- `impl Default for PeerInfo`; the score's instant is the clock's.
  unfoldable pub default : ℕ → PeerInfo F E M
  default now = record {
    score = real (default_real f now);
    connection_status = unknown;
    listening_addresses = [];
    seen_addresses = [];
    subnets = [];
    sync_status = SyncStatus.unknown;
    meta_data = none;
    min_ttl = none;
    is_trusted = false;
    connection_direction = none;
    enr = none;
  }

  -- `PeerInfo::trusted_peer_info`
  unfoldable pub trusted_peer_info : PeerInfo F E M
  trusted_peer_info = record {
    score = top;
    connection_status = unknown;
    listening_addresses = [];
    seen_addresses = [];
    subnets = [];
    sync_status = SyncStatus.unknown;
    meta_data = none;
    min_ttl = none;
    is_trusted = true;
    connection_direction = none;
    enr = none;
  }

  unfoldable pub score_state : PeerInfo F E M → ScoreState
  score_state i = Score.state f i.score

  -- `PeerInfo::score_is_banned`
  unfoldable pub score_is_banned : PeerInfo F E M → Bool
  unfolding score_state
  score_is_banned i = elim (score_state i) [ ScoreState.banned ↦ true | _ ↦ false ]

  -- `PeerInfo::score_update`: a trusted peer's score stays.
  unfoldable pub score_update : PeerInfo F E M → ℕ → PeerInfo F E M
  score_update i now =
      if not i.is_trusted then record i { score = Score.update f i.score now } else i

  -- `PeerInfo::apply_peer_action_to_score`
  unfoldable pub apply_peer_action_to_score : PeerInfo F E M → PeerAction → PeerInfo F E M
  apply_peer_action_to_score i action =
      if not i.is_trusted then record i { score = Score.apply_peer_action f i.score action } else i

  -- `PeerInfo::update_gossipsub_score`
  unfoldable pub update_gossipsub_score : PeerInfo F E M → ℕ → F → Bool → PeerInfo F E M
  update_gossipsub_score i now new_score ignore = record i {
    score = Score.update_gossipsub_score f i.score now new_score ignore;
  }

  unfoldable pub is_good_gossipsub_peer : PeerInfo F E M → Bool
  is_good_gossipsub_peer i = Score.is_good_gossipsub_peer f i.score

abbrev pub is_connected_status : PeerConnectionStatus → Bool
is_connected_status (connected _ _) = true
is_connected_status _ = false

abbrev pub is_dialing_status : PeerConnectionStatus → Bool
is_dialing_status (dialing _) = true
is_dialing_status _ = false

abbrev pub is_banned_status : PeerConnectionStatus → Bool
is_banned_status (banned _) = true
is_banned_status _ = false

abbrev pub is_disconnected_status : PeerConnectionStatus → Bool
is_disconnected_status (disconnected _) = true
is_disconnected_status _ = false

abbrev is_outbound_only_status : PeerConnectionStatus → Bool
is_outbound_only_status (connected n_in n_out) = (n_in == 0) && ltb 0 n_out
is_outbound_only_status _ = false

module _ {F E M : Type 0} where
  abbrev pub is_connected : PeerInfo F E M → Bool
  is_connected i = is_connected_status i.connection_status

  abbrev pub is_dialing : PeerInfo F E M → Bool
  is_dialing i = is_dialing_status i.connection_status

  abbrev pub is_connected_or_dialing : PeerInfo F E M → Bool
  is_connected_or_dialing i = is_connected i || is_dialing i

  abbrev pub is_banned : PeerInfo F E M → Bool
  is_banned i = is_banned_status i.connection_status

  abbrev pub is_disconnected : PeerInfo F E M → Bool
  is_disconnected i = is_disconnected_status i.connection_status

  abbrev pub is_outbound_only : PeerInfo F E M → Bool
  is_outbound_only i = is_outbound_only_status i.connection_status

  -- `PeerInfo::seen_ip_addresses`: an address for each socket, also where two sockets share one.
  abbrev pub seen_ip_addresses : PeerInfo F E M → List IpAddr
  seen_ip_addresses i = map (λ s. s.ip) i.seen_addresses

  -- `PeerInfo::has_future_duty`
  unfoldable pub has_future_duty : PeerInfo F E M → ℕ → Bool
  has_future_duty i now = elim i.min_ttl [ none ↦ false | some ttl ↦ leb now ttl ]

  -- `PeerInfo::on_subnet_metadata`
  unfoldable pub on_subnet_metadata : PeerInfo F E M → Subnet → Bool
  on_subnet_metadata i subnet = elim i.meta_data [
    | none ↦ false
    | some meta_data ↦ elim subnet [
      | attestation id ↦ or_false (bit meta_data.attnets id)
      | sync_committee id ↦ elim meta_data.syncnets [ none ↦ false | some s ↦ or_false (bit s id) ]
    ]
  ]

  unfoldable pub on_subnet_gossipsub : PeerInfo F E M → Subnet → Bool
  on_subnet_gossipsub i subnet = contains Subnet-discrete subnet i.subnets

  unfoldable pub update_sync_status : PeerInfo F E M → SyncStatus → PeerInfo F E M × Bool
  update_sync_status i status =
      let (new_status, changed) = SyncStatus.update i.sync_status status in
      (record i { sync_status = new_status }, changed)

  abbrev pub set_connection_status : PeerInfo F E M → PeerConnectionStatus → PeerInfo F E M
  set_connection_status i status = record i { connection_status = status }

  abbrev pub set_enr : PeerInfo F E M → Option E → PeerInfo F E M
  set_enr i none = i
  set_enr i (some enr) = record i { enr = some enr }

  unfoldable pub insert_subnet : PeerInfo F E M → Subnet → PeerInfo F E M
  insert_subnet i subnet = record i { subnets = insert_new Subnet-discrete subnet i.subnets }

  unfoldable pub remove_subnet : PeerInfo F E M → Subnet → PeerInfo F E M
  remove_subnet i subnet = record i { subnets = delete Subnet-discrete subnet i.subnets }

  abbrev pub clear_subnets : PeerInfo F E M → PeerInfo F E M
  clear_subnets i = record i { subnets = [] }

  -- `PeerInfo::set_dialing_peer`; the flag is false where the code returns an error.
  unfoldable pub set_dialing_peer : PeerInfo F E M → ℕ → PeerInfo F E M × Bool
  set_dialing_peer i now = elim i.connection_status [
    | connected _ _ ↦ (i, false)
    | dialing _ ↦ (i, false)
    | disconnecting _ ↦ (i, false)
    | _ ↦ (set_connection_status i (dialing now), true)
  ]

  abbrev see : PeerInfo F E M → Option SocketAddr → PeerInfo F E M
  see i none = i
  see i (some a) = record i { seen_addresses = insert_new SocketAddr-discrete a i.seen_addresses }

  -- `PeerInfo::connect_ingoing`
  unfoldable pub connect_ingoing : PeerInfo F E M → Option SocketAddr → PeerInfo F E M
  connect_ingoing i seen_address =
      see
        (elim i.connection_status [
          | connected n_in n_out ↦ set_connection_status i (connected (u8 (n_in + 1)) n_out)
          | _ ↦ record i { connection_status = connected 1 0; connection_direction = some incoming }
        ])
        seen_address

  -- `PeerInfo::connect_outgoing`
  unfoldable pub connect_outgoing : PeerInfo F E M → Option SocketAddr → PeerInfo F E M
  connect_outgoing i seen_address =
      see
        (elim i.connection_status [
          | connected n_in n_out ↦ set_connection_status i (connected n_in (u8 (n_out + 1)))
          | _ ↦ record i { connection_status = connected 0 1; connection_direction = some outgoing }
        ])
        seen_address
