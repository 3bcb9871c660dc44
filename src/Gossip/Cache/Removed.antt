-- ===== src/Gossip/Cache/Removed.antt =====
-- Messages that leave the cache, by retrieval or because their time is over.
use consentry.Common.Assoc
use consentry.Common.Assoc.{
  Distinct, get-insert, get-remove_self, get-remove_ne, insert-Distinct, remove-Distinct,
}
use consentry.Common.{
  ℕ, ◌≡◌, ◌≢◌, refl, sym, subst, ap, ◌∙◌, ite, none, some, List, [], ◌∷◌, arith, Option-cases, inl,
  inr,
}
use consentry.Gossip.{GossipTopic}
use consentry.Gossip.Cache.{
  DelayQueue, GossipCache, GossipTopic-discrete, Message-discrete, or_empty, remove_all, retrieve,
  without,
}
use consentry.Gossip.Cache.Registered.{find, Registered, find-insert, once-insert}

module _ {Q Key : Type 0} (queue : DelayQueue Q Key) (key_eq : Discrete Key) where
  remove_all-none :
      (q : Q) (msgs : List (List ℕ × Key)) (j : Key)
      → queue.entry q j ≡ none
      → queue.entry (remove_all queue q msgs) j ≡ none
  remove_all-none q [] j h = h
  remove_all-none q ((m, k) ∷ msgs) j h = elim (key_eq k j) [
    | yes e ↦ remove_all-none (queue.remove q k) msgs j (grind (arith, queue.remove-own q k))
    | no far ↦ remove_all-none (queue.remove q k) msgs j (queue.remove-other q k j far ∙ h)
  ]

  remove_all-own :
      (q : Q) (msgs : List (List ℕ × Key)) (message : List ℕ) (j : Key)
      → Assoc.get Message-discrete message msgs ≡ some j
      → queue.entry (remove_all queue q msgs) j ≡ none
  unfolding Assoc.get
  remove_all-own q [] message j h = cc
  remove_all-own q ((m, k) ∷ msgs) message j h = elim (Message-discrete m message) [
    | yes e ↦ remove_all-none (queue.remove q k) msgs j (grind (arith, queue.remove-own q k))
    | no far ↦ remove_all-own (queue.remove q k) msgs message j (grind arith)
  ]

  remove_all-other :
      (q : Q) (msgs : List (List ℕ × Key)) (j : Key)
      → Distinct Message-discrete msgs
      → ((message : List ℕ) → Assoc.get Message-discrete message msgs ≢ some j)
      → queue.entry (remove_all queue q msgs) j ≡ queue.entry q j
  unfolding Assoc.get
  remove_all-other q [] j d h = refl
  remove_all-other q ((m, k) ∷ msgs) j d h =
      let far : k ≢ j = λ e. h m (ground arith) in
      remove_all-other (queue.remove q k) msgs j d.1
        (λ message g. h message (ground (arith, d.0, g)))
      ∙ queue.remove-other q k j far

  find-without :
      (m : List (GossipTopic × List (List ℕ × Key))) (t t' : GossipTopic)
      (inner : List (List ℕ × Key)) (message : List ℕ)
      → Distinct GossipTopic-discrete m
      → find (without queue m t inner) t' message
        ≡ ite
            (GossipTopic-discrete t t')
            (Assoc.get Message-discrete message inner)
            (find m t' message)
  unfolding Assoc.get
  find-without m t t' [] message d = elim (GossipTopic-discrete t t') [
    | yes e ↦ grind (arith, get-remove_self GossipTopic-discrete t m d)
    | no far ↦ grind (arith, get-remove_ne GossipTopic-discrete t t' m far)
  ]
  find-without m t t' (x ∷ inner) message d = find-insert queue key_eq m t t' (x ∷ inner) message

  removed-Once :
      (m : List (GossipTopic × List (List ℕ × Key))) (t t' : GossipTopic)
      → Distinct GossipTopic-discrete m
      → Distinct Message-discrete (or_empty (Assoc.get GossipTopic-discrete t' m))
      → Distinct Message-discrete
          (or_empty (Assoc.get GossipTopic-discrete t' (Assoc.remove GossipTopic-discrete t m)))
  removed-Once m t t' d e = elim (GossipTopic-discrete t t') [
    | yes q ↦ grind (arith, get-remove_self GossipTopic-discrete t m d)
    | no far ↦ grind (arith, get-remove_ne GossipTopic-discrete t t' m far)
  ]

  find-removed :
      (m : List (GossipTopic × List (List ℕ × Key))) (t t' : GossipTopic) (message : List ℕ)
      → Distinct GossipTopic-discrete m
      → find (Assoc.remove GossipTopic-discrete t m) t' message
        ≡ ite (GossipTopic-discrete t t') none (find m t' message)
  unfolding Assoc.get
  find-removed m t t' message d = find-without m t t' [] message d

  taken-Registered :
      (c : GossipCache Q Key) (t : GossipTopic) (msgs : List (List ℕ × Key))
      → Assoc.get GossipTopic-discrete t c.topic_msgs ≡ some msgs
      → Registered queue key_eq c
      → Registered queue key_eq (record c {
        expirations = remove_all queue c.expirations msgs;
        topic_msgs = Assoc.remove GossipTopic-discrete t c.topic_msgs;
      })
  taken-Registered c t msgs e r =
      let inner : or_empty (Assoc.get GossipTopic-discrete t c.topic_msgs) ≡ msgs = ap or_empty e in
      let once = subst (Distinct Message-discrete) inner (r.messages_once t) in
      record {
        found = λ t' message j f.
            let f' = sym (find-removed c.topic_msgs t t' message r.topics_once) ∙ f in
            elim (GossipTopic-discrete t t') [
              | yes same ↦ absurd (grind arith)
              | no far ↦
                  let before : queue.entry c.expirations j ≡ some (t', message) =
                    r.found t' message j (grind arith) in
                  remove_all-other c.expirations msgs j once (λ m g. far (
                    ground
                      (arith, before, r.found t m j (ap (Assoc.get Message-discrete m) inner ∙ g))))
                  ∙ before
            ];
        held = λ t' message j h.
            let kept : (m : List ℕ) → Assoc.get Message-discrete m msgs ≢ some j =
              λ m g. ground (arith, h, remove_all-own c.expirations msgs m j g) in
            let before =
              r.held t' message j (sym (remove_all-other c.expirations msgs j once kept) ∙ h) in
            let after = find-removed c.topic_msgs t t' message r.topics_once in
            elim (GossipTopic-discrete t t') [
              | yes same ↦ absurd (
                  kept message (
                    sym (ap (Assoc.get Message-discrete message) inner)
                    ∙ (ap (λ x. find c.topic_msgs x message) same ∙ before)))
              | no far ↦ grind arith
            ];
        topics_once = remove-Distinct GossipTopic-discrete t c.topic_msgs r.topics_once;
        messages_once = λ t'. removed-Once c.topic_msgs t t' r.topics_once (r.messages_once t');
      }

  -- A retrieval takes all messages of the topic, their keys leave the queue, and nothing else changes.
  pub retrieve-Registered :
      (c : GossipCache Q Key) (t : GossipTopic)
      → Registered queue key_eq c
      → Registered queue key_eq (retrieve queue c t).0
  unfolding retrieve
  retrieve-Registered c t r = elim (Option-cases (Assoc.get GossipTopic-discrete t c.topic_msgs)) [
    | inl absent ↦ rw (retrieve, absent) r
    | inr (msgs, e) ↦ rw (retrieve, e) (taken-Registered c t msgs e r)
  ]

  find-dropped :
      (m : List (GossipTopic × List (List ℕ × Key))) (t t' : GossipTopic)
      (message message' : List ℕ) (msgs : List (List ℕ × Key))
      → or_empty (Assoc.get GossipTopic-discrete t m) ≡ msgs
      → Distinct GossipTopic-discrete m
      → Distinct Message-discrete msgs
      → find (without queue m t (Assoc.remove Message-discrete message msgs)) t' message'
        ≡ ite
            (GossipTopic-discrete t t')
            (ite (Message-discrete message message') none (find m t' message'))
            (find m t' message')
  find-dropped m t t' message message' msgs e d once =
      let a = find-without m t t' (Assoc.remove Message-discrete message msgs) message' d in
      elim (GossipTopic-discrete t t') [
        | no far ↦ grind arith
        | yes same ↦ elim (Message-discrete message message') [
          | yes own ↦ grind (arith, get-remove_self Message-discrete message msgs once)
          | no other ↦ grind (arith, get-remove_ne Message-discrete message message' msgs other)
        ]
      ]

  without-Once :
      (m : List (GossipTopic × List (List ℕ × Key))) (t t' : GossipTopic)
      (inner : List (List ℕ × Key))
      → Distinct GossipTopic-discrete m
      → Distinct Message-discrete inner
      → Distinct Message-discrete (or_empty (Assoc.get GossipTopic-discrete t' m))
      → Distinct GossipTopic-discrete (without queue m t inner)
        × Distinct Message-discrete
            (or_empty (Assoc.get GossipTopic-discrete t' (without queue m t inner)))
  without-Once m t t' [] d i e =
      (remove-Distinct GossipTopic-discrete t m d, removed-Once m t t' d e)
  without-Once m t t' (x ∷ inner) d i e = (
    insert-Distinct GossipTopic-discrete t (x ∷ inner) m d,
    once-insert queue key_eq m t t' (x ∷ inner) i e,
  )

  -- The message whose time is over is dropped, with its key, and nothing else changes.
  pub dropped-Registered :
      (c : GossipCache Q Key) (t : GossipTopic) (message : List ℕ) (k : Key)
      (msgs : List (List ℕ × Key))
      → Assoc.get GossipTopic-discrete t c.topic_msgs ≡ some msgs
      → queue.entry c.expirations k ≡ some (t, message)
      → Registered queue key_eq c
      → Registered queue key_eq (record c {
        expirations = queue.remove c.expirations k;
        topic_msgs = without queue c.topic_msgs t (Assoc.remove Message-discrete message msgs);
      })
  dropped-Registered c t message k msgs e own r =
      let inner : or_empty (Assoc.get GossipTopic-discrete t c.topic_msgs) ≡ msgs = ap or_empty e in
      let once = subst (Distinct Message-discrete) inner (r.messages_once t) in
      let left = remove-Distinct Message-discrete message msgs once in
      record {
        found = λ t' m' j f.
            let f' =
              sym (find-dropped c.topic_msgs t t' message m' msgs inner r.topics_once once) ∙ f in
            let before = r.found t' m' j in
            let other = queue.remove-other c.expirations k j in
            elim (GossipTopic-discrete t t') [
              | no far ↦ elim (key_eq k j) [
                | yes same ↦ absurd (grind arith)
                | no k_far ↦ grind arith
              ]
              | yes same_topic ↦ elim (Message-discrete message m') [
                | yes same ↦ absurd (grind arith)
                | no far ↦ elim (key_eq k j) [
                  | yes same ↦ absurd (grind arith)
                  | no k_far ↦ grind arith
                ]
              ]
            ];
        held = λ t' m' j h.
            let gone = queue.remove-own c.expirations k in
            let other = queue.remove-other c.expirations k j in
            let before = r.held t' m' j in
            let mine = r.held t message k own in
            let after = find-dropped c.topic_msgs t t' message m' msgs inner r.topics_once once in
            elim (key_eq k j) [ yes same ↦ absurd (grind arith) | no far ↦ grind arith ];
        topics_once =
            (without-Once c.topic_msgs t t (Assoc.remove Message-discrete message msgs)
              r.topics_once left (r.messages_once t)).0;
        messages_once = λ t'.
            (without-Once c.topic_msgs t t' (Assoc.remove Message-discrete message msgs)
              r.topics_once left (r.messages_once t')).1;
      }
