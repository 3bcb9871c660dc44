-- ===== src/Gossip/Cache/Registered.antt =====
-- Each cached message has its key in the delay queue, and the queue has no other.
use consentry.Common.Assoc
use consentry.Common.Assoc.{
  Distinct, get-insert, get-remove_self, get-remove_ne, insert-Distinct, remove-Distinct,
}
use consentry.Common.{
  ℕ, ◌≡◌, refl, sym, ◌∙◌, ite, Option, none, some, List, arith, Option-cases, inl, inr,
}
use consentry.Gossip.{GossipTopic}
use consentry.Gossip.Cache.{
  DelayQueue, GossipCache, GossipTopic-discrete, Message-discrete, or_empty, messages, insert_for,
  insert, timeout_of,
}

-- The key under which a message is cached.
abbrev pub find :
    {Key : Type 0} → List (GossipTopic × List (List ℕ × Key)) → GossipTopic → List ℕ → Option Key
find m t message =
    Assoc.get Message-discrete message (or_empty (Assoc.get GossipTopic-discrete t m))

module _ {Q Key : Type 0} (queue : DelayQueue Q Key) (key_eq : Discrete Key) where
  pub record Registered (c : GossipCache Q Key) : Type 0 where
    pub found :
        (t : GossipTopic) (message : List ℕ) (k : Key)
        → find c.topic_msgs t message ≡ some k
        → queue.entry c.expirations k ≡ some (t, message)
    pub held :
        (t : GossipTopic) (message : List ℕ) (k : Key)
        → queue.entry c.expirations k ≡ some (t, message)
        → find c.topic_msgs t message ≡ some k
    pub topics_once : Distinct GossipTopic-discrete c.topic_msgs
    pub messages_once :
        (t : GossipTopic)
        → Distinct Message-discrete (or_empty (Assoc.get GossipTopic-discrete t c.topic_msgs))

  pub find-insert :
      (m : List (GossipTopic × List (List ℕ × Key))) (t t' : GossipTopic)
      (inner : List (List ℕ × Key)) (message : List ℕ)
      → find (Assoc.insert GossipTopic-discrete t inner m) t' message
        ≡ ite
            (GossipTopic-discrete t t')
            (Assoc.get Message-discrete message inner)
            (find m t' message)
  find-insert m t t' inner message = ground (arith, get-insert GossipTopic-discrete t t' inner m)

  pub once-insert :
      (m : List (GossipTopic × List (List ℕ × Key))) (t t' : GossipTopic)
      (inner : List (List ℕ × Key))
      → Distinct Message-discrete inner
      → Distinct Message-discrete (or_empty (Assoc.get GossipTopic-discrete t' m))
      → Distinct Message-discrete (
          or_empty
            (Assoc.get GossipTopic-discrete t' (Assoc.insert GossipTopic-discrete t inner m)))
  once-insert m t t' inner d e = ground (arith, get-insert GossipTopic-discrete t t' inner m)

  -- Writing back what a topic has changes nothing that is found.
  find-same :
      (m : List (GossipTopic × List (List ℕ × Key))) (t t' : GossipTopic) (message : List ℕ)
      → find
          (Assoc.insert GossipTopic-discrete t (or_empty (Assoc.get GossipTopic-discrete t m)) m)
          t'
          message
        ≡ find m t' message
  find-same m t t' message = elim (GossipTopic-discrete t t') [
    | yes e ↦
        grind (arith, find-insert m t t' (or_empty (Assoc.get GossipTopic-discrete t m)) message)
    | no far ↦
        grind (arith, find-insert m t t' (or_empty (Assoc.get GossipTopic-discrete t m)) message)
  ]

  find-new :
      (m : List (GossipTopic × List (List ℕ × Key))) (t t' : GossipTopic)
      (message message' : List ℕ) (k : Key)
      → find
          (Assoc.insert GossipTopic-discrete t
            (Assoc.insert Message-discrete message k
              (or_empty (Assoc.get GossipTopic-discrete t m)))
            m)
          t'
          message'
        ≡ ite
            (GossipTopic-discrete t t')
            (ite (Message-discrete message message') (some k) (find m t' message'))
            (find m t' message')
  find-new m t t' message message' k =
      let inner = or_empty (Assoc.get GossipTopic-discrete t m) in
      let a = find-insert m t t' (Assoc.insert Message-discrete message k inner) message' in
      let b = get-insert Message-discrete message message' k inner in
      elim (GossipTopic-discrete t t') [ yes e ↦ grind arith | no far ↦ grind arith ]

  new-found :
      (c : GossipCache Q Key) (t : GossipTopic) (message : List ℕ) (timeout : ℕ)
      → Registered c
      → (t' : GossipTopic) (message' : List ℕ) (j : Key)
      → find (insert_for queue c t message timeout none).topic_msgs t' message' ≡ some j
      → queue.entry (insert_for queue c t message timeout none).expirations j ≡ some (t', message')
  new-found c t message timeout r t' message' j f =
      let q = c.expirations in
      let k = (queue.insert q (t, message) timeout).1 in
      let own = queue.insert-own q (t, message) timeout in
      let fresh = queue.insert-fresh q (t, message) timeout in
      let other = queue.insert-other q (t, message) timeout j in
      let before = r.found t' message' j in
      let f' = sym (find-new c.topic_msgs t t' message message' k) ∙ f in
      elim (GossipTopic-discrete t t') [
        | no far ↦ grind arith
        | yes e ↦ elim (Message-discrete message message') [
          | yes e' ↦ grind arith
          | no far ↦ grind arith
        ]
      ]

  new-held :
      (c : GossipCache Q Key) (t : GossipTopic) (message : List ℕ) (timeout : ℕ)
      → Registered c
      → find c.topic_msgs t message ≡ none
      → (t' : GossipTopic) (message' : List ℕ) (j : Key)
      → queue.entry (insert_for queue c t message timeout none).expirations j ≡ some (t', message')
      → find (insert_for queue c t message timeout none).topic_msgs t' message' ≡ some j
  new-held c t message timeout r h t' message' j e =
      let q = c.expirations in
      let k = (queue.insert q (t, message) timeout).1 in
      let own = queue.insert-own q (t, message) timeout in
      let other = queue.insert-other q (t, message) timeout j in
      let before = r.held t' message' j in
      let f = find-new c.topic_msgs t t' message message' k in
      elim (key_eq k j) [ yes same ↦ grind arith | no far ↦ grind arith ]

  insert_for-Registered :
      (c : GossipCache Q Key) (t : GossipTopic) (message : List ℕ) (timeout : ℕ) (k : Option Key)
      → Registered c
      → find c.topic_msgs t message ≡ k
      → Registered (insert_for queue c t message timeout k)
  insert_for-Registered c t message timeout (some k) r h = record {
    found = λ t' message' j f.
        queue.reset-entry c.expirations k j timeout
        ∙ r.found t' message' j (sym (find-same c.topic_msgs t t' message') ∙ f);
    held = λ t' message' j e.
        find-same c.topic_msgs t t' message'
        ∙ r.held t' message' j (sym (queue.reset-entry c.expirations k j timeout) ∙ e);
    topics_once =
        insert-Distinct GossipTopic-discrete t (messages queue c t) c.topic_msgs r.topics_once;
    messages_once = λ t'.
        once-insert c.topic_msgs t t' (messages queue c t) (r.messages_once t) (r.messages_once t');
  }
  insert_for-Registered c t message timeout none r h = record {
    found = λ t' message' j f. new-found c t message timeout r t' message' j f;
    held = λ t' message' j e. new-held c t message timeout r h t' message' j e;
    topics_once = insert-Distinct GossipTopic-discrete t _ c.topic_msgs r.topics_once;
    messages_once = λ t'.
        once-insert c.topic_msgs t t' _
          (insert-Distinct Message-discrete message _ (messages queue c t) (r.messages_once t))
          (r.messages_once t');
  }

  -- A cached message keeps its key, or gets a new one: the queue and the map agree after an insert.
  pub insert-Registered :
      (c : GossipCache Q Key) (t : GossipTopic) (message : List ℕ)
      → Registered c
      → Registered (insert queue c t message)
  unfolding insert
  insert-Registered c t message r = elim (Option-cases (timeout_of c.timeouts t.kind)) [
    | inl ignored ↦ rw (insert, ignored) r
    | inr (timeout, kept) ↦
        rw (insert, kept)
          (insert_for-Registered c t message timeout (find c.topic_msgs t message) r refl)
  ]
