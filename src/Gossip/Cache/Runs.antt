-- ===== src/Gossip/Cache/Runs.antt =====
-- The cache over any sequence of its calls.
use consentry.Common.{ℕ, ◌≡◌, ◌↔◌, subst, Option, some, List, arith, Option-cases, inl, inr}
use consentry.Common.Assoc
use consentry.Gossip.{GossipTopic}
use consentry.Gossip.Cache.{
  Entry, DelayQueue, GossipCache, GossipTopic-discrete, Message-discrete, Timeouts, build, insert,
  retrieve, without, poll_next, Expired, expired, Polled,
}
use consentry.Gossip.Cache.Registered.{find, Registered, insert-Registered}
use consentry.Gossip.Cache.Removed.{retrieve-Registered, dropped-Registered}

module _ {Q Key : Type 0} (queue : DelayQueue Q Key) where
  -- Inserts, retrievals and polls, from one cache to another.
  pub data Reaches : GossipCache Q Key → GossipCache Q Key → Type 0 where
    stay : (c : GossipCache Q Key) → Reaches c c
    inserted :
        (c d : GossipCache Q Key) (t : GossipTopic) (message : List ℕ)
        → Reaches c d
        → Reaches c (insert queue d t message)
    retrieved :
        (c d : GossipCache Q Key) (t : GossipTopic) → Reaches c d → Reaches c (retrieve queue d t).0
    polled :
        (c d e : GossipCache Q Key) (x : Expired Key) (a : Polled)
        → Reaches c d
        → poll_next queue d x ≡ some (e, a)
        → Reaches c e

module _ {Q Key : Type 0} (queue : DelayQueue Q Key) (key_eq : Discrete Key) where
  build-Registered :
      (default_timeout : Option ℕ) (timeouts : Timeouts)
      → Registered queue key_eq (build queue default_timeout timeouts)
  unfolding build Assoc.get
  build-Registered d ts = record {
    found = λ t message k f. absurd (grind arith);
    held = λ t message k e. absurd (grind (arith, queue.entry-empty k));
    topics_once = tt;
    messages_once = λ t. tt;
  }

  expired-Registered :
      (c d : GossipCache Q Key) (key : Key) (a : Polled) (e : Entry)
      → queue.entry c.expirations key ≡ some e
      → poll_next queue c (expired key) ≡ some (d, a)
      → Registered queue key_eq c
      → Registered queue key_eq d
  unfolding poll_next Assoc.get
  expired-Registered c d key a (t, message) own h r =
      elim (Option-cases (Assoc.get GossipTopic-discrete t c.topic_msgs)) [
        | inl absent ↦ absurd (grind (arith, r.held t message key own))
        | inr (msgs, e) ↦
            let mid = record c {
              expirations = queue.remove c.expirations key;
              topic_msgs =
                  without queue c.topic_msgs t (Assoc.remove Message-discrete message msgs);
            } in
            let same : mid ≡ d = grind arith in
            subst (Registered queue key_eq) same
              (dropped-Registered queue key_eq c t message key msgs e own r)
      ]

  poll_next-Registered :
      (c d : GossipCache Q Key) (x : Expired Key) (a : Polled)
      → poll_next queue c x ≡ some (d, a)
      → Registered queue key_eq c
      → Registered queue key_eq d
  unfolding poll_next
  poll_next-Registered c d (expired key) a h r =
      elim (Option-cases (queue.entry c.expirations key)) [
        | inl absent ↦ absurd (grind arith)
        | inr (e, own) ↦ expired-Registered c d key a e own h r
      ]
  poll_next-Registered c d (Expired.failed text) a h r =
      let same : c ≡ d = grind arith in subst (Registered queue key_eq) same r
  poll_next-Registered c d Expired.finished a h r =
      let same : c ≡ d = grind arith in subst (Registered queue key_eq) same r
  poll_next-Registered c d Expired.pending a h r =
      let same : c ≡ d = grind arith in subst (Registered queue key_eq) same r

  Reaches-Registered :
      (c d : GossipCache Q Key)
      → Reaches queue c d
      → Registered queue key_eq c
      → Registered queue key_eq d
  Reaches-Registered c d (Reaches.stay _) r = r
  Reaches-Registered c d (Reaches.inserted _ b t message s) r =
      insert-Registered queue key_eq b t message (Reaches-Registered c b s r)
  Reaches-Registered c d (Reaches.retrieved _ b t s) r =
      retrieve-Registered queue key_eq b t (Reaches-Registered c b s r)
  Reaches-Registered c d (Reaches.polled _ b _ x a s h) r =
      poll_next-Registered b d x a h (Reaches-Registered c b s r)

  -- After any inserts, retrievals and polls of a cache that was built, with a delay queue that keeps the
  -- laws of `DelayQueue` and keys that can be compared: a message is cached for a topic under a key
  -- exactly if that key stands for that topic and that message in the delay queue.
  pub cache_agrees :
      (default_timeout : Option ℕ) (timeouts : Timeouts) (c : GossipCache Q Key)
      → Reaches queue (build queue default_timeout timeouts) c
      → (t : GossipTopic) (message : List ℕ) (k : Key)
      → (find c.topic_msgs t message ≡ some k) ↔ (queue.entry c.expirations k ≡ some (t, message))
  cache_agrees d ts c s t message k =
      let r = Reaches-Registered (build queue d ts) c s (build-Registered d ts) in
      (r.found t message k, r.held t message k)
