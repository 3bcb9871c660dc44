-- ===== src/PeerManager/PeerDb/Limits/Bounds.antt =====
-- `shrink_to_fit`, the limits of the database and its counters.
use consentry.Common.Assoc
use consentry.Common.Assoc.{Distinct}
use consentry.Common.Totals.{total, total-remove}
use consentry.Common.{
  ℕ, zero, suc, ◌+◌, ◌-◌, ◌≤◌, ◌<◌, ◌≡◌, ◌⊎◌, leb, subst, refl, Option, none, some, List, [], ◌∷◌,
  ◌++◌, length, arith, ℕ_discrete, inl, inr, Option-cases, Bool-cases, ltb, ltb→lt, ltb→le, min,
  length-append, ap, ◌∙◌,
}
use consentry.PeerManager.PeerInfo.{PeerInfo, PeerConnectionStatus, IpAddr, seen_ip_addresses}
use consentry.PeerManager.BannedPeers.{remove_banned_peer, count_of-remove_banned_peer}
use consentry.PeerManager.PeerDb.{PeerDb, max_banned_peers, max_dc_peers}
use consentry.PeerManager.PeerDb.Counters.{as_disconnected, as_banned, as_banned_at}
use consentry.PeerManager.PeerDb.Transitions.{Coherent}
use consentry.PeerManager.PeerDb.Limits.{
  Found, earlier, banned_since, disconnected_since, oldest, drop_banned, drop_all_banned,
  drop_disconnected, drop_all_disconnected, shrink_to_fit,
}

module _ {F E M : Type 0} where
  earlier-cases :
      (k : ℕ) (i : PeerInfo F E M) (o : Option ℕ) (r : Found F E M) {k' s' : ℕ}
      {i' : PeerInfo F E M}
      → earlier k i o r ≡ some (k', i', s')
      → ((k ≡ k') × (i ≡ i') × (o ≡ some s')) ⊎ (r ≡ some (k', i', s'))
  earlier-cases k i none r e = inr e
  earlier-cases k i (some s) none e = inl (ground arith, ground arith, ground arith)
  earlier-cases k i (some s) (some (j, other, least)) e = elim (Bool-cases (leb s least)) [
    | inl first ↦ inl (ground arith, ground arith, ground arith)
    | inr later ↦ inr (ground arith)
  ]

  oldest-get :
      (since_of : PeerConnectionStatus → Option ℕ) (m : List (ℕ × PeerInfo F E M)) {k s : ℕ}
      {i : PeerInfo F E M}
      → Distinct ℕ_discrete m
      → oldest since_of m ≡ some (k, i, s)
      → (Assoc.get ℕ_discrete k m ≡ some i) × (since_of i.connection_status ≡ some s)
  unfolding oldest Assoc.get
  oldest-get since_of [] d e = cc
  oldest-get since_of ((j, v) ∷ m) {k} {s} {i} d e =
      elim (earlier-cases j v (since_of v.connection_status) (oldest since_of m) e) [
        | inl (p, q, r) ↦ (ground arith, subst (λ x. since_of x.connection_status ≡ some s) q r)
        | inr rest ↦
            let ih = oldest-get since_of m {k = k} {s = s} {i = i} d.1 rest in
            let absent = d.0 in (ground arith, ih.1)
      ]

  no_banned : (m : List (ℕ × PeerInfo F E M)) → oldest banned_since m ≡ none → total as_banned m ≡ 0
  unfolding oldest total
  no_banned [] e = refl
  no_banned ((j, v) ∷ m) e = ground (arith, no_banned m)

  no_disconnected :
      (m : List (ℕ × PeerInfo F E M))
      → oldest disconnected_since m ≡ none
      → total as_disconnected m ≡ 0
  unfolding oldest total
  no_disconnected [] e = refl
  no_disconnected ((j, v) ∷ m) e = ground (arith, no_disconnected m)

  -- One round of the first loop on a coherent database that holds too many banned peers.
  record DropsOne (db db' : PeerDb F E M) (n : ℕ) : Type 0 where
    coherent : Coherent db'
    one_less : db'.banned_peers_count.banned_peers + 1 ≡ db.banned_peers_count.banned_peers
    same : db'.disconnected_peers ≡ db.disconnected_peers
    reported : n ≡ 1

  drop_banned-DropsOne :
      (db : PeerDb F E M)
      → Coherent db
      → 0 < db.banned_peers_count.banned_peers
      → DropsOne db (drop_banned db).0 (length (drop_banned db).1)
  unfolding drop_banned
  drop_banned-DropsOne db c h = elim (Option-cases (oldest banned_since db.peers)) [
    | inl nobody ↦ let e = c.banned in absurd (omega (arith, no_banned db.peers nobody))
    | inr ((k, i, s), e) ↦
        let (held, status) = oldest-get banned_since db.peers c.distinct e in
        let c1 = c.disconnected in
        let c2 = c.banned in
        rw (e, drop_banned)
          (record {
            coherent = record {
              distinct = Assoc.remove-Distinct ℕ_discrete k db.peers c.distinct;
              disconnected = ground (arith, total-remove ℕ_discrete as_disconnected k db.peers);
              banned =
                  unfold remove_banned_peer in
                  ground (arith, total-remove ℕ_discrete as_banned k db.peers);
              at = λ ip.
                  let c3 = c.at ip in
                  ground (
                    arith,
                    total-remove ℕ_discrete (as_banned_at ip) k db.peers,
                    count_of-remove_banned_peer db.banned_peers_count (seen_ip_addresses i) ip,
                  );
            };
            one_less = unfold remove_banned_peer in ground arith;
            same = refl;
            reported = refl;
          })
  ]

  record Shrunk (db : PeerDb F E M) (reported : ℕ) (r : PeerDb F E M × List (ℕ × List IpAddr))
      : Type 0 where
    coherent : Coherent r.0
    at_limit :
        r.0.banned_peers_count.banned_peers
        ≡ min db.banned_peers_count.banned_peers max_banned_peers
    same : r.0.disconnected_peers ≡ db.disconnected_peers
    told : length r.1 ≡ reported + (db.banned_peers_count.banned_peers - max_banned_peers)

  drop_all_banned-Shrunk :
      (fuel : ℕ) (db : PeerDb F E M) (dropped : List (ℕ × List IpAddr))
      → db.banned_peers_count.banned_peers ≤ fuel
      → Coherent db
      → Shrunk db (length dropped) (drop_all_banned fuel db dropped)
  unfolding drop_all_banned
  drop_all_banned-Shrunk zero db dropped h c = record {
    coherent = c;
    at_limit = omega arith;
    same = refl;
    told = omega arith;
  }
  drop_all_banned-Shrunk (suc fuel) db dropped h c =
      elim (Bool-cases (ltb max_banned_peers db.banned_peers_count.banned_peers)) [
        | inl over ↦
            let many = ltb→lt _ _ over in
            let one = drop_banned-DropsOne db c (omega arith) in
            let e1 = one.one_less in
            let e2 = one.same in
            let e3 = one.reported in
            let all =
              drop_all_banned-Shrunk fuel (drop_banned db).0 (dropped ++ (drop_banned db).1)
                (omega arith) one.coherent in
            let a1 = all.at_limit in
            let a2 = all.told in
            rw (over, drop_all_banned)
              (record {
                coherent = all.coherent;
                at_limit = omega arith;
                same = all.same ∙ one.same;
                told = omega (arith, length-append dropped (drop_banned db).1);
              })
        | inr within ↦
            let few = ltb→le _ _ within in
            rw (within, drop_all_banned)
              (record { coherent = c; at_limit = omega arith; same = refl; told = omega arith })
      ]

  record DropsDisconnected (db db' : PeerDb F E M) : Type 0 where
    coherent : Coherent db'
    one_less : db'.disconnected_peers + 1 ≡ db.disconnected_peers
    same : db'.banned_peers_count ≡ db.banned_peers_count

  drop_disconnected_lem :
      (db : PeerDb F E M)
      → Coherent db
      → 0 < db.disconnected_peers
      → DropsDisconnected db (drop_disconnected db)
  unfolding drop_disconnected
  drop_disconnected_lem db c h = elim (Option-cases (oldest disconnected_since db.peers)) [
    | inl nobody ↦ let e = c.disconnected in absurd (omega (arith, no_disconnected db.peers nobody))
    | inr ((k, i, s), e) ↦
        let (held, status) = oldest-get disconnected_since db.peers c.distinct e in
        let c1 = c.disconnected in
        let c2 = c.banned in
        rw (e, drop_disconnected)
          (record {
            coherent = record {
              distinct = Assoc.remove-Distinct ℕ_discrete k db.peers c.distinct;
              disconnected = ground (arith, total-remove ℕ_discrete as_disconnected k db.peers);
              banned = ground (arith, total-remove ℕ_discrete as_banned k db.peers);
              at = λ ip.
                  let c3 = c.at ip in
                  ground (arith, total-remove ℕ_discrete (as_banned_at ip) k db.peers);
            };
            one_less = ground arith;
            same = refl;
          })
  ]

  record Fits (db db' : PeerDb F E M) : Type 0 where
    coherent : Coherent db'
    at_limit : db'.disconnected_peers ≡ min db.disconnected_peers max_dc_peers
    same : db'.banned_peers_count ≡ db.banned_peers_count

  drop_all_disconnected-Fits :
      (fuel : ℕ) (db : PeerDb F E M)
      → db.disconnected_peers ≤ fuel
      → Coherent db
      → Fits db (drop_all_disconnected fuel db)
  unfolding drop_all_disconnected
  drop_all_disconnected-Fits zero db h c = record {
    coherent = c;
    at_limit = omega arith;
    same = refl;
  }
  drop_all_disconnected-Fits (suc fuel) db h c =
      elim (Bool-cases (ltb max_dc_peers db.disconnected_peers)) [
        | inl over ↦
            let many = ltb→lt _ _ over in
            let one = drop_disconnected_lem db c (omega arith) in
            let e1 = one.one_less in
            let all =
              drop_all_disconnected-Fits fuel (drop_disconnected db) (omega arith) one.coherent in
            let a1 = all.at_limit in
            rw (over, drop_all_disconnected)
              (record {
                coherent = all.coherent;
                at_limit = omega arith;
                same = all.same ∙ one.same;
              })
        | inr within ↦
            let few = ltb→le _ _ within in
            rw (within, drop_all_disconnected)
              (record { coherent = c; at_limit = omega arith; same = refl })
      ]

  -- Shrinking a coherent database ends with exactly as many banned peers as it had or 1000, and
  -- disconnected peers as it had or 500, whichever is less; it reports as many peers as it drops
  -- of the banned ones, and keeps the database coherent.
  pub shrink_to_fit_lem :
      (db : PeerDb F E M)
      → Coherent db
      → let (db', unbanned_peers) = shrink_to_fit db in
        Coherent db'
        × (db'.banned_peers_count.banned_peers
            ≡ min db.banned_peers_count.banned_peers max_banned_peers)
        × (db'.disconnected_peers ≡ min db.disconnected_peers max_dc_peers)
        × (length unbanned_peers ≡ db.banned_peers_count.banned_peers - max_banned_peers)
  unfolding shrink_to_fit
  shrink_to_fit_lem db c =
      let first = drop_all_banned-Shrunk db.banned_peers_count.banned_peers db [] (omega arith) c in
      let mid = (drop_all_banned db.banned_peers_count.banned_peers db []).0 in
      let second =
        drop_all_disconnected-Fits mid.disconnected_peers mid (omega arith) first.coherent in
      (
        second.coherent,
        ap (λ x. x.banned_peers) second.same ∙ first.at_limit,
        second.at_limit ∙ ap (λ x. min x max_dc_peers) first.same,
        first.told ∙ omega arith,
      )
