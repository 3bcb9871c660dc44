-- ===== src/Gossip/Cache/Examples.antt =====
-- src/network/gossip_cache.rs with a delay queue that is a list, newest entry first.
use consentry.Common.{
  ℕ, ◌≡◌, ◌↔◌, ◌≤◌, refl, ite, Option, none, some, List, [], ◌∷◌, arith, ℕ_discrete, suc, ◌+◌,
}
use consentry.Common.Assoc
use consentry.Gossip.{GossipTopic, GossipKind, GossipEncoding}
use consentry.Gossip.Cache.{
  Entry, DelayQueue, GossipCache, Timeouts, GossipTopic-discrete, Message-discrete, timeout_of,
  build, insert, poll_next, expired, Polled,
}
use consentry.Gossip.Cache.Runs.{Reaches, cache_agrees}
use consentry.Gossip.Cache.Registered.{find}

abbrev Keys : Type 0
Keys = List (ℕ × Option Entry)

unfoldable entry_in : Keys → ℕ → Option Entry
entry_in [] k = none
entry_in ((j, o) ∷ q) k = ite (ℕ_discrete j k) o (entry_in q k)

unfoldable fresh : Keys → ℕ
fresh [] = 0
fresh ((j, o) ∷ q) = suc (j + fresh q)

entry_in-fresh : (q : Keys) (k : ℕ) → fresh q ≤ k → entry_in q k ≡ none
unfolding entry_in fresh
entry_in-fresh [] k h = refl
entry_in-fresh ((j, o) ∷ q) k h = elim (ℕ_discrete j k) [
  | yes e ↦ absurd (omega arith)
  | no far ↦ grind (arith, entry_in-fresh q k (omega arith))
]

unfoldable keys : DelayQueue Keys ℕ
unfolding entry_in
keys = record {
  empty = [];
  insert = λ q e t. ((fresh q, some e) ∷ q, fresh q);
  reset = λ q k t. q;
  remove = λ q k. (k, none) ∷ q;
  entry = entry_in;
  entry-empty = λ k. refl;
  insert-fresh = λ q e t. entry_in-fresh q (fresh q) (omega arith);
  insert-own = λ q e t. ground arith;
  insert-other = λ q e t k far. ground arith;
  reset-entry = λ q k j t. refl;
  remove-own = λ q k. ground arith;
  remove-other = λ q k j far. ground arith;
}

abbrev minute : Timeouts
minute = record {
  beacon_block = some 60000000000;
  aggregates = none;
  attestation = some 5;
  voluntary_exit = none;
  proposer_slashing = none;
  attester_slashing = none;
  signed_contribution_and_proof = none;
  sync_committee_message = none;
}

abbrev blocks : GossipTopic
blocks = record {
  encoding = GossipEncoding.ssz_snappy;
  fork_digest = 1 ∷ 2 ∷ 3 ∷ 4 ∷ [];
  kind = GossipKind.beacon_block;
}

abbrev exits : GossipTopic
exits = record {
  encoding = GossipEncoding.ssz_snappy;
  fork_digest = 1 ∷ 2 ∷ 3 ∷ 4 ∷ [];
  kind = GossipKind.voluntary_exit;
}

abbrev first : GossipCache Keys ℕ
first = build keys none minute

abbrev one_cached : GossipCache Keys ℕ
one_cached = insert keys first blocks (7 ∷ 8 ∷ [])

abbrev two_cached : GossipCache Keys ℕ
two_cached = insert keys one_cached blocks (9 ∷ [])

abbrev left : GossipCache Keys ℕ
left = record two_cached {
  expirations = (0, none) ∷ (1, some (blocks, 9 ∷ [])) ∷ (0, some (blocks, 7 ∷ 8 ∷ [])) ∷ [];
  topic_msgs = (blocks, (9 ∷ [], 1) ∷ []) ∷ [];
}

first_expired : poll_next keys two_cached (expired 0) ≡ some (left, Polled.topic blocks)
unfolding poll_next insert keys build entry_in fresh timeout_of Assoc.get Assoc.insert Assoc.remove
    GossipTopic-discrete Message-discrete ℕ_discrete
first_expired = refl

not_cached : insert keys first exits (1 ∷ []) ≡ first
unfolding insert build timeout_of
not_cached = refl

run : Reaches keys first left
run =
    Reaches.polled first two_cached left (expired 0) (Polled.topic blocks)
      (Reaches.inserted first one_cached blocks (9 ∷ [])
        (Reaches.inserted first first blocks (7 ∷ 8 ∷ []) (Reaches.stay first)))
      first_expired

cache_agrees_example :
    (find left.topic_msgs blocks (9 ∷ []) ≡ some 1)
    ↔ (entry_in left.expirations 1 ≡ some (blocks, (9 ∷ [])))
unfolding keys
cache_agrees_example = cache_agrees keys ℕ_discrete none minute left run blocks (9 ∷ []) 1
