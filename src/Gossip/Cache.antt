-- ===== src/Gossip/Cache.antt =====
-- src/network/gossip_cache.rs: the messages that could not be published, by topic. The delay queue
-- of tokio is a parameter with its documented laws; which key expires is an argument of `poll_next`.
-- Durations are nanoseconds; the waker is left out.
mod Registered
mod Removed
mod Runs
mod Examples
use consentry.Common.Assoc
use consentry.Common.{ℕ, ◌≡◌, ◌≢◌, Option, none, some, List, [], ◌∷◌, map, ℕ_discrete}
use consentry.Common.Text.{Text}
use consentry.Gossip.{GossipTopic, GossipKind}

unfoldable pub GossipTopic-discrete : Discrete GossipTopic
GossipTopic-discrete = hlevel ℕ_discrete

unfoldable pub Message-discrete : Discrete (List ℕ)
Message-discrete = hlevel ℕ_discrete

abbrev pub Entry : Type 0
Entry = GossipTopic × List ℕ

-- `DelayQueue` with its `Key`s. `entry` is what a key stands for.
pub record DelayQueue (Q Key : Type 0) : Type 0 where
  pub empty : Q
  pub insert : Q → Entry → ℕ → Q × Key
  pub reset : Q → Key → ℕ → Q
  pub remove : Q → Key → Q
  pub entry : Q → Key → Option Entry
  pub entry-empty : (k : Key) → entry empty k ≡ none
  pub insert-fresh : (q : Q) (e : Entry) (t : ℕ) → entry q (insert q e t).1 ≡ none
  pub insert-own : (q : Q) (e : Entry) (t : ℕ) → entry (insert q e t).0 (insert q e t).1 ≡ some e
  pub insert-other :
      (q : Q) (e : Entry) (t : ℕ) (k : Key)
      → (insert q e t).1 ≢ k
      → entry (insert q e t).0 k ≡ entry q k
  pub reset-entry : (q : Q) (k j : Key) (t : ℕ) → entry (reset q k t) j ≡ entry q j
  pub remove-own : (q : Q) (k : Key) → entry (remove q k) k ≡ none
  pub remove-other : (q : Q) (k j : Key) → k ≢ j → entry (remove q k) j ≡ entry q j

-- The timeouts by kind, of the cache and of its builder.
pub record Timeouts : Type 0 where
  pub beacon_block : Option ℕ
  pub aggregates : Option ℕ
  pub attestation : Option ℕ
  pub voluntary_exit : Option ℕ
  pub proposer_slashing : Option ℕ
  pub attester_slashing : Option ℕ
  pub signed_contribution_and_proof : Option ℕ
  pub sync_committee_message : Option ℕ

-- `GossipCache`
pub record GossipCache (Q Key : Type 0) : Type 0 where
  pub expirations : Q
  pub topic_msgs : List (GossipTopic × List (List ℕ × Key))
  pub timeouts : Timeouts

abbrev or : Option ℕ → Option ℕ → Option ℕ
or none b = b
or (some a) b = some a

-- `GossipCacheBuilder::build`
unfoldable pub build : {Q Key : Type 0} → DelayQueue Q Key → Option ℕ → Timeouts → GossipCache Q Key
build queue default_timeout t = record {
  expirations = queue.empty;
  topic_msgs = [];
  timeouts = record {
    beacon_block = or t.beacon_block default_timeout;
    aggregates = or t.aggregates default_timeout;
    attestation = or t.attestation default_timeout;
    voluntary_exit = or t.voluntary_exit default_timeout;
    proposer_slashing = or t.proposer_slashing default_timeout;
    attester_slashing = or t.attester_slashing default_timeout;
    signed_contribution_and_proof = or t.signed_contribution_and_proof default_timeout;
    sync_committee_message = or t.sync_committee_message default_timeout;
  };
}

-- The first match of `GossipCache::insert`
unfoldable pub timeout_of : Timeouts → GossipKind → Option ℕ
timeout_of t GossipKind.beacon_block = t.beacon_block
timeout_of t GossipKind.beacon_aggregate_and_proof = t.aggregates
timeout_of t (GossipKind.attestation _) = t.attestation
timeout_of t GossipKind.voluntary_exit = t.voluntary_exit
timeout_of t GossipKind.proposer_slashing = t.proposer_slashing
timeout_of t GossipKind.attester_slashing = t.attester_slashing
timeout_of t GossipKind.signed_contribution_and_proof = t.signed_contribution_and_proof
timeout_of t (GossipKind.sync_committee_message _) = t.sync_committee_message

abbrev pub or_empty : {V : Type 0} → Option (List V) → List V
or_empty none = []
or_empty (some xs) = xs

-- What `poll_expired` answers.
pub data Expired (Key : Type 0) : Type 0 where
  expired : Key → Expired Key
  failed : Text → Expired Key
  finished pending : Expired Key

-- What `poll_next` answers.
pub data Polled : Type 0 where
  topic : GossipTopic → Polled
  failed : Text → Polled
  finished pending : Polled

module _ {Q Key : Type 0} (queue : DelayQueue Q Key) where
  abbrev pub messages : GossipCache Q Key → GossipTopic → List (List ℕ × Key)
  messages c t = or_empty (Assoc.get GossipTopic-discrete t c.topic_msgs)

  abbrev pub insert_for :
      GossipCache Q Key → GossipTopic → List ℕ → ℕ → Option Key → GossipCache Q Key
  insert_for c t message expire_timeout (some key) = record c {
    expirations = queue.reset c.expirations key expire_timeout;
    topic_msgs = Assoc.insert GossipTopic-discrete t (messages c t) c.topic_msgs;
  }
  insert_for c t message expire_timeout none =
      let (expirations, key) = queue.insert c.expirations (t, message) expire_timeout in
      record c {
        expirations = expirations;
        topic_msgs =
            Assoc.insert GossipTopic-discrete t
              (Assoc.insert Message-discrete message key (messages c t)) c.topic_msgs;
      }

  -- `GossipCache::insert`
  unfoldable pub insert : GossipCache Q Key → GossipTopic → List ℕ → GossipCache Q Key
  unfolding GossipTopic-discrete Message-discrete
  insert c t message = elim (timeout_of c.timeouts t.kind) [
    | none ↦ c
    | some expire_timeout ↦
        insert_for c t message expire_timeout (Assoc.get Message-discrete message (messages c t))
  ]

  abbrev pub remove_all : Q → List (List ℕ × Key) → Q
  remove_all q [] = q
  remove_all q ((_, key) ∷ msgs) = remove_all (queue.remove q key) msgs

  -- `GossipCache::retrieve`
  unfoldable pub retrieve :
      GossipCache Q Key → GossipTopic → GossipCache Q Key × Option (List (List ℕ))
  unfolding GossipTopic-discrete
  retrieve c t = elim (Assoc.get GossipTopic-discrete t c.topic_msgs) [
    | some msgs ↦ (
      record c {
        expirations = remove_all c.expirations msgs;
        topic_msgs = Assoc.remove GossipTopic-discrete t c.topic_msgs;
      },
      some (map (λ m. m.0) msgs),
    )
    | none ↦ (c, none)
  ]

  -- The messages of a topic without one; a topic without messages is dropped.
  abbrev pub without :
      List (GossipTopic × List (List ℕ × Key))
      → GossipTopic
      → List (List ℕ × Key)
      → List (GossipTopic × List (List ℕ × Key))
  without m t [] = Assoc.remove GossipTopic-discrete t m
  without m t (x ∷ msgs) = Assoc.insert GossipTopic-discrete t (x ∷ msgs) m

  abbrev pub drop_message : GossipCache Q Key → Entry → List (GossipTopic × List (List ℕ × Key))
  drop_message c (t, message) = elim (Assoc.get GossipTopic-discrete t c.topic_msgs) [
    | some msgs ↦ without c.topic_msgs t (Assoc.remove Message-discrete message msgs)
    | none ↦ c.topic_msgs
  ]

  -- `Stream::poll_next`. The key that expired is taken off the queue with its entry; `none` stands
  -- for a key that is not in the queue.
  unfoldable pub poll_next : GossipCache Q Key → Expired Key → Option (GossipCache Q Key × Polled)
  unfolding GossipTopic-discrete Message-discrete
  poll_next c (expired key) = elim (queue.entry c.expirations key) [
    | some e ↦ some (
      record c { expirations = queue.remove c.expirations key; topic_msgs = drop_message c e },
      topic e.0,
    )
    | none ↦ none
  ]
  poll_next c (Expired.failed text) = some (c, Polled.failed text)
  poll_next c Expired.finished = some (c, Polled.finished)
  poll_next c Expired.pending = some (c, Polled.pending)
