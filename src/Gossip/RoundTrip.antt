-- ===== src/Gossip/RoundTrip.antt =====
-- A topic printed and read back.
use consentry.Common.{
  ℕ, ◌≡◌, ◌<◌, refl, ap, ◌∙◌, false, List, [], ◌∷◌, ◌++◌, none, some, length, u64_mod, arith,
}
use consentry.Common.Result.{ok}
use consentry.Common.Text.{
  Text, codes, same, strip_prefix, trim_start_matches, trim_start_matches-once, split, split-end,
  split-first, Lacks,
}
use consentry.Common.Decimal.{format, parse-format, format-AllDigits, AllDigits, AllDigits-Lacks}
use consentry.PeerManager.PeerInfo.{Subnet}
use consentry.Gossip.{
  Hex, new, GossipKind, GossipEncoding, GossipTopic, kind_text, encoding_text, subnet_id,
  from_subnet, committee_topic_index, decode_kind, decode_encoding, display, decode, decode_digest,
  decode_list, check_size, beacon_attestation_prefix, sync_committee_prefix_topic,
  subnet_from_topic_hash,
}

-- The number of a subnet is a `u64`.
abbrev pub IsIndexed : GossipKind → Type 0
IsIndexed (GossipKind.attestation index) = index < u64_mod
IsIndexed (GossipKind.sync_committee_message index) = index < u64_mod
IsIndexed _ = Unit

-- Digits do not begin with a prefix that begins with a letter.
strip_prefix-digits : (c : ℕ) (p s : Text) → b'9' < c → AllDigits s → strip_prefix (c ∷ p) s ≡ none
unfolding strip_prefix
strip_prefix-digits c p [] l h = refl
strip_prefix-digits c p (x ∷ s) l h = ground arith

trim-prefix :
    (c : ℕ) (p : Text) (n : ℕ)
    → b'9' < c
    → trim_start_matches (c ∷ p) ((c ∷ p) ++ format n) ≡ format n
trim-prefix c p n l =
    trim_start_matches-once c p (format n)
      (strip_prefix-digits c p (format n) l (format-AllDigits n))

index-attestation :
    (n : ℕ)
    → n < u64_mod
    → committee_topic_index (beacon_attestation_prefix ++ format n) ≡ some (Subnet.attestation n)
unfolding committee_topic_index strip_prefix
index-attestation n h =
    rw
      (
        committee_topic_index,
        trim-prefix b'b' (codes "eacon_attestation_") n (omega arith),
        parse-format n h,
      )
      refl

index-sync :
    (n : ℕ)
    → n < u64_mod
    → committee_topic_index (sync_committee_prefix_topic ++ format n)
      ≡ some (Subnet.sync_committee n)
unfolding committee_topic_index strip_prefix
index-sync n h =
    rw
      (
        committee_topic_index,
        trim-prefix b's' (codes "ync_committee_") n (omega arith),
        parse-format n h,
      )
      refl

same-digits : (c : ℕ) (t s : Text) → b'9' < c → AllDigits s → same s (c ∷ t) ≡ false
unfolding same
same-digits c t [] l h = refl
same-digits c t (x ∷ s) l h = ground arith

decode_kind-kind_text : (k : GossipKind) → IsIndexed k → decode_kind (kind_text k) ≡ ok k
unfolding decode_kind kind_text same committee_topic_index strip_prefix
decode_kind-kind_text GossipKind.beacon_block h = refl
decode_kind-kind_text GossipKind.beacon_aggregate_and_proof h = refl
decode_kind-kind_text (GossipKind.attestation n) h = rw (index-attestation n h) refl
decode_kind-kind_text GossipKind.voluntary_exit h = refl
decode_kind-kind_text GossipKind.proposer_slashing h = refl
decode_kind-kind_text GossipKind.attester_slashing h = refl
decode_kind-kind_text GossipKind.signed_contribution_and_proof h = refl
decode_kind-kind_text (GossipKind.sync_committee_message n) h =
    rw
      (
        index-sync n h,
        kind_text,
        same-digits b'c' (codes "ontribution_and_proof") (format n) (omega arith)
            (format-AllDigits n),
      )
      refl

Lacks-append : (c : ℕ) (s t : Text) → Lacks c s → Lacks c t → Lacks c (s ++ t)
Lacks-append c [] t h k = k
Lacks-append c (x ∷ s) t h k = (h.0, Lacks-append c s t h.1 k)

format-Lacks : (n : ℕ) → Lacks b'/' (format n)
format-Lacks n = AllDigits-Lacks b'/' (format n) (omega arith) (format-AllDigits n)

kind_text-Lacks : (k : GossipKind) → Lacks b'/' (kind_text k)
unfolding kind_text
kind_text-Lacks GossipKind.beacon_block = omega arith
kind_text-Lacks GossipKind.beacon_aggregate_and_proof = omega arith
kind_text-Lacks (GossipKind.attestation n) =
    Lacks-append b'/' beacon_attestation_prefix (format n) (omega arith) (format-Lacks n)
kind_text-Lacks GossipKind.voluntary_exit = omega arith
kind_text-Lacks GossipKind.proposer_slashing = omega arith
kind_text-Lacks GossipKind.attester_slashing = omega arith
kind_text-Lacks GossipKind.signed_contribution_and_proof = omega arith
kind_text-Lacks (GossipKind.sync_committee_message n) =
    Lacks-append b'/' sync_committee_prefix_topic (format n) (omega arith) (format-Lacks n)

encoding_text-Lacks : (e : GossipEncoding) → Lacks b'/' (encoding_text e)
encoding_text-Lacks GossipEncoding.ssz_snappy = omega arith

decode_encoding-encoding_text :
    (topic : Text) (e : GossipEncoding) → decode_encoding topic (encoding_text e) ≡ ok e
unfolding decode_encoding same
decode_encoding-encoding_text topic GossipEncoding.ssz_snappy = refl

module _ (hex : Hex) where
  split-display :
      (t : GossipTopic)
      → Lacks b'/' (hex.encode t.fork_digest)
      → split b'/' (display hex t)
        ≡ []
          ∷ codes "eth2"
          ∷ hex.encode t.fork_digest
          ∷ kind_text t.kind
          ∷ encoding_text t.encoding
          ∷ []
  unfolding display split
  split-display t h =
      ap {B = List Text} (λ r. [] ∷ codes "eth2" ∷ r)
        (split-first b'/' (hex.encode t.fork_digest)
            (kind_text t.kind ++ b'/' ∷ encoding_text t.encoding) h
          ∙ ap {B = List Text} (λ r. hex.encode t.fork_digest ∷ r)
              (split-first b'/' (kind_text t.kind) (encoding_text t.encoding)
                  (kind_text-Lacks t.kind)
                ∙ ap {B = List Text} (λ r. kind_text t.kind ∷ r)
                    (split-end b'/' (encoding_text t.encoding) (encoding_text-Lacks t.encoding))))

  -- A topic with four digest bytes and a subnet number that fits, printed and decoded, is the topic
  -- again, where hex decodes what it encodes and prints no slash.
  pub decode-display :
      (t : GossipTopic)
      → length t.fork_digest ≡ 4
      → IsIndexed t.kind
      → Lacks b'/' (hex.encode t.fork_digest)
      → hex.decode (hex.encode t.fork_digest) ≡ ok t.fork_digest
      → decode hex (display hex t) ≡ ok t
  unfolding decode decode_list decode_digest decode_encoding check_size same
  decode-display t four fits lacks back =
      rw
        (
          decode,
          split-display t lacks,
          decode_list,
          decode_digest,
          back,
          check_size,
          four,
          decode_encoding-encoding_text (display hex t) t.encoding,
          decode_kind-kind_text t.kind fits,
        )
        refl

  -- The subnet read from a topic's text is the topic's: for a topic made from a subnet, that subnet.
  subnet_from_topic_hash-display :
      (s : Subnet) (digest : List ℕ)
      → length digest ≡ 4
      → IsIndexed (from_subnet s)
      → Lacks b'/' (hex.encode digest)
      → hex.decode (hex.encode digest) ≡ ok digest
      → subnet_from_topic_hash hex
          (display hex (new (from_subnet s) GossipEncoding.ssz_snappy digest))
        ≡ some s
  unfolding subnet_from_topic_hash subnet_id from_subnet
  subnet_from_topic_hash-display (Subnet.attestation n) digest four fits lacks back =
      rw
        (
          subnet_from_topic_hash,
          decode-display (new (GossipKind.attestation n) GossipEncoding.ssz_snappy digest) four fits
              lacks back,
        )
        refl
  subnet_from_topic_hash-display (Subnet.sync_committee n) digest four fits lacks back =
      rw
        (
          subnet_from_topic_hash,
          decode-display
              (new (GossipKind.sync_committee_message n) GossipEncoding.ssz_snappy digest) four fits
              lacks back,
        )
        refl
