-- ===== src/Gossip/Decoding.antt =====
-- What the text of a topic must be to be decoded.
use consentry.Common.{
  ℕ, ◌≡◌, ◌<◌, inl, inr, sym, ap, ◌∙◌, List, [], ◌∷◌, ◌++◌, some, length, u64_mod, arith, true,
  Bool-cases, Option-cases,
}
use consentry.Common.Result.{ok}
use consentry.Common.Text.{
  Text, codes, same, same→eq, strip_prefix, strip_prefix-some, trim_start_matches, split, join,
  join-split,
}
use consentry.Common.Decimal.{parse, parse-bound}
use consentry.PeerManager.PeerInfo.{Subnet}
use consentry.Gossip.{
  Hex, GossipKind, GossipTopic, kind_text, committee_topic_index, decode_parts, decode_kind,
  decode_encoding, decode, decode_digest, decode_list, check_size, beacon_attestation_prefix,
  sync_committee_prefix_topic,
}

-- How a kind may be spelled: a committee's number may be written with its prefix repeated, with a
-- plus sign and with zeros in front.
abbrev pub Spells : Text → GossipKind → Type 0
Spells s (GossipKind.attestation n) =
    (r : Text) × (s ≡ beacon_attestation_prefix ++ r)
    × (parse (trim_start_matches beacon_attestation_prefix s) ≡ some n)
    × (n < u64_mod)
Spells s (GossipKind.sync_committee_message n) =
    (r : Text) × (s ≡ sync_committee_prefix_topic ++ r)
    × (parse (trim_start_matches sync_committee_prefix_topic s) ≡ some n)
    × (n < u64_mod)
Spells s k = s ≡ kind_text k

attestation-Spells :
    (s : Text) {n : ℕ}
    → committee_topic_index s ≡ some (Subnet.attestation n)
    → Spells s (GossipKind.attestation n)
unfolding committee_topic_index
attestation-Spells s {n} h = elim (Option-cases (strip_prefix beacon_attestation_prefix s)) [
  | inr (r, e) ↦ (
    r,
    strip_prefix-some beacon_attestation_prefix s e,
    ground arith,
    parse-bound (trim_start_matches beacon_attestation_prefix s) {r = n} (ground arith),
  )
  | inl e ↦ absurd (ground arith)
]

sync-Spells :
    (s : Text) {n : ℕ}
    → committee_topic_index s ≡ some (Subnet.sync_committee n)
    → Spells s (GossipKind.sync_committee_message n)
unfolding committee_topic_index
sync-Spells s {n} h = elim (Option-cases (strip_prefix sync_committee_prefix_topic s)) [
  | inr (r, e) ↦ (
    r,
    strip_prefix-some sync_committee_prefix_topic s e,
    ground arith,
    parse-bound (trim_start_matches sync_committee_prefix_topic s) {r = n} (ground arith),
  )
  | inl e ↦ absurd (ground arith)
]

decode_kind-Spells : (s : Text) (k : GossipKind) → decode_kind s ≡ ok k → Spells s k
unfolding decode_kind kind_text
decode_kind-Spells s GossipKind.beacon_block h = same→eq s _ (ground arith)
decode_kind-Spells s GossipKind.beacon_aggregate_and_proof h = same→eq s _ (ground arith)
decode_kind-Spells s (GossipKind.attestation n) h = attestation-Spells s (ground arith)
decode_kind-Spells s GossipKind.voluntary_exit h = same→eq s _ (ground arith)
decode_kind-Spells s GossipKind.proposer_slashing h = same→eq s _ (ground arith)
decode_kind-Spells s GossipKind.attester_slashing h = same→eq s _ (ground arith)
decode_kind-Spells s GossipKind.signed_contribution_and_proof h = same→eq s _ (ground arith)
decode_kind-Spells s (GossipKind.sync_committee_message n) h = sync-Spells s (ground arith)

module _ (hex : Hex) where
  decode_parts-ok :
      (topic d k e : Text) {t : GossipTopic}
      → decode_parts hex topic d k e ≡ ok t
      → (hex.decode d ≡ ok t.fork_digest)
        × (length t.fork_digest ≡ 4)
        × (same e (codes "ssz_snappy") ≡ true)
        × (decode_kind k ≡ ok t.kind)
  unfolding decode_digest check_size decode_encoding
  decode_parts-ok topic d k e {t} h = (ground arith, ground arith, ground arith, ground arith)

  abbrev Parts : GossipTopic → List Text → Type 0
  Parts t ps =
      (first digest kind : Text) × (ps
        ≡ first ∷ codes "eth2" ∷ digest ∷ kind ∷ codes "ssz_snappy" ∷ [])
      × (hex.decode digest ≡ ok t.fork_digest)
      × (length t.fork_digest ≡ 4)
      × Spells kind t.kind

  decode_list-Parts :
      (topic : Text) (ps : List Text) {t : GossipTopic}
      → decode_list hex topic ps ≡ ok t
      → Parts t ps
  unfolding decode_list
  decode_list-Parts topic [] h = cc
  decode_list-Parts topic (_ ∷ []) h = cc
  decode_list-Parts topic (_ ∷ _ ∷ []) h = cc
  decode_list-Parts topic (_ ∷ _ ∷ _ ∷ []) h = cc
  decode_list-Parts topic (_ ∷ _ ∷ _ ∷ _ ∷ []) h = cc
  decode_list-Parts topic (a ∷ p ∷ d ∷ k ∷ e ∷ []) {t} h =
      elim (Bool-cases (same p (codes "eth2"))) [
        | inr n ↦ absurd (ground arith)
        | inl y ↦
            let (back, four, enc, kind) = decode_parts-ok topic d k e {t = t} (ground arith) in
            (
              a,
              d,
              k,
              ap {B = List Text} (λ r. a ∷ r)
                  (grind (arith, same→eq p (codes "eth2") y, same→eq e (codes "ssz_snappy") enc)),
              back,
              four,
              decode_kind-Spells k t.kind kind,
            )
      ]
  decode_list-Parts topic (_ ∷ _ ∷ _ ∷ _ ∷ _ ∷ _ ∷ _) h = cc

  -- A text is decoded only if it is a text, a slash, the prefix `eth2`, a slash, the hex of four
  -- bytes, a slash, a spelling of the kind, a slash and the encoding; these are the topic's parts.
  pub decode-parts :
      (s : Text) {t : GossipTopic}
      → decode hex s ≡ ok t
      → (first digest kind : Text) × (s
          ≡ first
            ++ (b'/'
                ∷ (codes "eth2"
                    ++ (b'/' ∷ (digest ++ (b'/' ∷ (kind ++ (b'/' ∷ codes "ssz_snappy"))))))))
        × (hex.decode digest ≡ ok t.fork_digest)
        × (length t.fork_digest ≡ 4)
        × Spells kind t.kind
  unfolding decode
  decode-parts s {t} h =
      let (first, digest, kind, e, back, four, spelled) =
        decode_list-Parts s (split b'/' s) {t = t} h in
      (first, digest, kind, sym (join-split b'/' s) ∙ ap (join b'/') e, back, four, spelled)
