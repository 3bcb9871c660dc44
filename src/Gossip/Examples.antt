-- ===== src/Gossip/Examples.antt =====
-- Topics printed and decoded with hexadecimal digits in lower case.
use consentry.Common.{
  ℕ, ◌+◌, ◌-◌, ◌*◌, ◌/◌, ◌%◌, ◌≡◌, refl, ltb, if◌then◌else◌, List, [], ◌∷◌, ◌++◌, length, arith,
}
use consentry.Common.Result.{Result, ok, err, ◌>>=◌}
use consentry.Common.Text.{Text, codes, split, same, strip_prefix, trim_start_matches}
use consentry.Common.Decimal.{format, parse}
use consentry.Gossip.{
  Hex, GossipKind, GossipEncoding, GossipTopic, new, display, decode, decode_list, decode_digest,
  check_size, decode_encoding, decode_kind, committee_topic_index, kind_text,
}
use consentry.Gossip.Decoding.{Spells, decode-parts}
use consentry.Gossip.RoundTrip.{decode-display}

abbrev hex_digit : ℕ → ℕ
hex_digit n = if ltb n 10 then b'0' + n else 87 + n

abbrev digit_value : ℕ → ℕ
digit_value c = if ltb c 58 then c - b'0' else c - 87

abbrev to_hex : List ℕ → Text
to_hex [] = []
to_hex (b ∷ bs) = hex_digit (b / 16) ∷ hex_digit (b % 16) ∷ to_hex bs

abbrev of_hex : Text → Result Text (List ℕ)
of_hex [] = ok []
of_hex (c ∷ []) = err (codes "Odd number of digits")
of_hex (c ∷ d ∷ s) = of_hex s >>= λ bs. ok ((digit_value c * 16 + digit_value d) ∷ bs)

abbrev lower_hex : Hex
lower_hex = record { encode = to_hex; decode = of_hex }

abbrev digest : List ℕ
digest = 225 ∷ 146 ∷ 95 ∷ 59 ∷ []

abbrev subnet_42 : GossipTopic
subnet_42 = new (GossipKind.attestation 42) GossipEncoding.ssz_snappy digest

display-subnet_42 :
    display lower_hex subnet_42 ≡ codes "/eth2/e1925f3b/beacon_attestation_42/ssz_snappy"
unfolding display kind_text format
display-subnet_42 = refl

decode-wrong_digest :
    decode lower_hex (codes "/eth2/e1925f3b4b/beacon_block/ssz_snappy")
    ≡ err (codes "Invalid gossipsub fork digest size: 5")
unfolding decode decode_list split same decode_digest check_size format
decode-wrong_digest = refl

decode-wrong_prefix :
    decode lower_hex (codes "/tezos/e1925f3b/beacon_block/ssz_snappy")
    ≡ err (codes "Unknown topic: /tezos/e1925f3b/beacon_block/ssz_snappy")
unfolding decode decode_list split same
decode-wrong_prefix = refl

-- A repeated prefix, a plus sign and zeros are read too.
decode-repeated :
    decode lower_hex (codes "/eth2/e1925f3b/beacon_attestation_beacon_attestation_+042/ssz_snappy")
    ≡ ok subnet_42
unfolding decode decode_list split same decode_digest check_size decode_encoding decode_kind
    committee_topic_index strip_prefix parse trim_start_matches
decode-repeated = refl

decode-display_example : decode lower_hex (display lower_hex subnet_42) ≡ ok subnet_42
decode-display_example = decode-display lower_hex subnet_42 refl (omega arith) (omega arith) refl

decode-parts_example :
    (first digest_part kind : Text) × (codes "/eth2/e1925f3b/beacon_attestation_42/ssz_snappy"
      ≡ first
        ++ (b'/'
            ∷ (codes "eth2"
                ++ (b'/' ∷ (digest_part ++ (b'/' ∷ (kind ++ (b'/' ∷ codes "ssz_snappy"))))))))
    × (of_hex digest_part ≡ ok digest)
    × (length digest ≡ 4)
    × Spells kind (GossipKind.attestation 42)
unfolding decode decode_list split same decode_digest check_size decode_encoding decode_kind
    committee_topic_index strip_prefix parse trim_start_matches
decode-parts_example =
    decode-parts lower_hex (codes "/eth2/e1925f3b/beacon_attestation_42/ssz_snappy") {t = subnet_42}
      refl
