-- ===== src/Gossip.antt =====
-- src/types/topics.rs: the topics of the gossip network and their texts. The crate `hex` is a
-- parameter; the other encodings of texts and numbers are the standard library's.
pub mod Decoding
pub mod RoundTrip
pub mod Cache
pub mod Examples
use consentry.Common.{
  ℕ, Bool, true, false, List, [], ◌∷◌, ◌++◌, Option, none, some, length, if◌then◌else◌, ◌==◌,
}
use consentry.Common.Result.{Result, ok, err, ◌>>=◌, map_err}
use consentry.Common.Text.{Text, codes, same, strip_prefix, trim_start_matches, split}
use consentry.Common.Decimal.{format, parse}
use consentry.PeerManager.PeerInfo.{Subnet}

-- `hex::encode` and `hex::decode`; the error is its text.
pub record Hex : Type 0 where
  pub encode : List ℕ → Text
  pub decode : Text → Result Text (List ℕ)

pub data GossipKind : Type 0 where
  beacon_block beacon_aggregate_and_proof : GossipKind
  attestation : ℕ → GossipKind
  voluntary_exit proposer_slashing attester_slashing signed_contribution_and_proof : GossipKind
  sync_committee_message : ℕ → GossipKind

pub data GossipEncoding : Type 0 where
  ssz_snappy : GossipEncoding

pub record GossipTopic : Type 0 where
  pub encoding : GossipEncoding
  pub fork_digest : List ℕ
  pub kind : GossipKind

-- `GossipTopic::new`
abbrev pub new : GossipKind → GossipEncoding → List ℕ → GossipTopic
new kind encoding fork_digest = record {
  encoding = encoding;
  fork_digest = fork_digest;
  kind = kind;
}

abbrev pub topic_prefix : Text
topic_prefix = codes "eth2"

abbrev pub ssz_snappy_encoding_postfix : Text
ssz_snappy_encoding_postfix = codes "ssz_snappy"

abbrev pub beacon_attestation_prefix : Text
beacon_attestation_prefix = codes "beacon_attestation_"

abbrev pub sync_committee_prefix_topic : Text
sync_committee_prefix_topic = codes "sync_committee_"

-- The part of `Display for GossipTopic` that the kind gives.
unfoldable pub kind_text : GossipKind → Text
kind_text beacon_block = codes "beacon_block"
kind_text beacon_aggregate_and_proof = codes "beacon_aggregate_and_proof"
kind_text (GossipKind.attestation index) = beacon_attestation_prefix ++ format index
kind_text voluntary_exit = codes "voluntary_exit"
kind_text proposer_slashing = codes "proposer_slashing"
kind_text attester_slashing = codes "attester_slashing"
kind_text signed_contribution_and_proof = codes "sync_committee_contribution_and_proof"
kind_text (sync_committee_message index) = sync_committee_prefix_topic ++ format index

abbrev pub encoding_text : GossipEncoding → Text
encoding_text ssz_snappy = ssz_snappy_encoding_postfix

-- `From<Subnet> for GossipKind`
unfoldable pub from_subnet : Subnet → GossipKind
from_subnet (Subnet.attestation s) = GossipKind.attestation s
from_subnet (Subnet.sync_committee s) = sync_committee_message s

subnet_of : GossipKind → Option Subnet
subnet_of (GossipKind.attestation s) = some (Subnet.attestation s)
subnet_of (sync_committee_message s) = some (Subnet.sync_committee s)
subnet_of _ = none

-- `GossipTopic::subnet_id`
unfoldable pub subnet_id : GossipTopic → Option Subnet
unfolding subnet_of
subnet_id topic = subnet_of topic.kind

-- `committee_topic_index`
unfoldable pub committee_topic_index : Text → Option Subnet
committee_topic_index topic = elim (strip_prefix beacon_attestation_prefix topic) [
  | some _ ↦ elim (parse (trim_start_matches beacon_attestation_prefix topic)) [
    | some index ↦ some (Subnet.attestation index)
    | none ↦ none
  ]
  | none ↦ elim (strip_prefix sync_committee_prefix_topic topic) [
    | some _ ↦ elim (parse (trim_start_matches sync_committee_prefix_topic topic)) [
      | some index ↦ some (Subnet.sync_committee index)
      | none ↦ none
    ]
    | none ↦ none
  ]
]

abbrev subnet_kind : Text → Option Subnet → Result Text GossipKind
subnet_kind topic (some (Subnet.attestation s)) = ok (GossipKind.attestation s)
subnet_kind topic (some (Subnet.sync_committee s)) = ok (sync_committee_message s)
subnet_kind topic none = err (codes "Unknown topic: " ++ topic)

-- The match of `GossipTopic::decode` on the kind.
unfoldable pub decode_kind : Text → Result Text GossipKind
decode_kind topic =
    if same topic (codes "beacon_block")
    then ok beacon_block
    else if same topic (codes "beacon_aggregate_and_proof")
    then ok beacon_aggregate_and_proof
    else if same topic (codes "sync_committee_contribution_and_proof")
    then ok signed_contribution_and_proof
    else if same topic (codes "voluntary_exit")
    then ok voluntary_exit
    else if same topic (codes "proposer_slashing")
    then ok proposer_slashing
    else if same topic (codes "attester_slashing")
    then ok attester_slashing
    else subnet_kind topic (committee_topic_index topic)

unfoldable pub decode_encoding : Text → Text → Result Text GossipEncoding
decode_encoding topic part =
    if same part ssz_snappy_encoding_postfix
    then ok ssz_snappy
    else err (codes "Unknown encoding: " ++ topic)

unfoldable pub check_size : List ℕ → Result Text (List ℕ)
check_size digest_bytes =
    if length digest_bytes == 4
    then ok digest_bytes
    else err (codes "Invalid gossipsub fork digest size: " ++ format (length digest_bytes))

module _ (hex : Hex) where
  -- `Display for GossipTopic`
  unfoldable pub display : GossipTopic → Text
  display t =
      b'/'
      ∷ (topic_prefix
          ++ (b'/'
              ∷ (hex.encode t.fork_digest
                  ++ (b'/' ∷ (kind_text t.kind ++ (b'/' ∷ encoding_text t.encoding))))))

  unfoldable pub decode_digest : Text → Result Text (List ℕ)
  decode_digest part = do
    digest_bytes ← map_err (λ e. codes "Could not decode fork_digest hex: " ++ e) (hex.decode part)
    check_size digest_bytes

  abbrev decode_parts : Text → Text → Text → Text → Result Text GossipTopic
  decode_parts topic digest_part kind_part encoding_part = do
    fork_digest ← decode_digest digest_part
    encoding ← decode_encoding topic encoding_part
    kind ← decode_kind kind_part
    ok (record { encoding = encoding; fork_digest = fork_digest; kind = kind })

  unfoldable pub decode_list : Text → List Text → Result Text GossipTopic
  decode_list topic (_ ∷ prefix_part ∷ digest_part ∷ kind_part ∷ encoding_part ∷ []) =
      if same prefix_part topic_prefix
      then decode_parts topic digest_part kind_part encoding_part
      else err (codes "Unknown topic: " ++ topic)
  decode_list topic _ = err (codes "Unknown topic: " ++ topic)

  -- `GossipTopic::decode`
  unfoldable pub decode : Text → Result Text GossipTopic
  decode topic = decode_list topic (split b'/' topic)

  -- `subnet_from_topic_hash`
  unfoldable pub subnet_from_topic_hash : Text → Option Subnet
  subnet_from_topic_hash topic = elim (decode topic) [ ok t ↦ subnet_id t | err _ ↦ none ]
