-- ===== src/PeerManager/PeerDb/Queries/Cleanup.antt =====
-- `cleanup_dialing_peers` and the dials that are past the timeout.
use consentry.Common.Assoc
use consentry.Common.{
  ℕ, ◌≡◌, ◌⊎◌, inl, inr, sym, subst, Bool, true, false, some, List, [], ◌∷◌, length, arith,
  ℕ_discrete, Bool-cases, map, filter,
}
use consentry.PeerManager.Score.{F64}
use consentry.PeerManager.PeerInfo.{PeerInfo}
use consentry.PeerManager.PeerDb.{
  PeerDb, Local, NewConnectionState, entry, update_connection_state, to_disconnected,
}
use consentry.PeerManager.PeerDb.Transitions.{
  Coherent, HasRoom, update_connection_state-Coherent, update_connection_state-HasRoom,
}
use consentry.PeerManager.PeerDb.Queries.{ids}
use consentry.PeerManager.PeerDb.Queries.Writes.{timed_out, disconnect_all, cleanup_dialing_peers}

infix 40 ◌∈◌
abbrev ◌∈◌ : ℕ → List ℕ → Type 0
k ∈ [] = ⊥
k ∈ j ∷ ks = (k ≡ j) ⊎ (k ∈ ks)

module _ {F E M : Type 0} where
  get-ids :
      (p : PeerInfo F E M → Bool) (m : List (ℕ × PeerInfo F E M)) (k : ℕ) (i : PeerInfo F E M)
      → Assoc.get ℕ_discrete k m ≡ some i
      → p i ≡ true
      → k ∈ map (λ x. x.0) (filter (λ x. p x.1) m)
  unfolding Assoc.get filter
  get-ids p [] k i held h = cc
  get-ids p ((j, v) ∷ m) k i held h = elim (ℕ_discrete j k) [
    | yes e ↦
        let same : v ≡ i = ground arith in
        let chosen : p v ≡ true = subst (λ w. p w ≡ true) (sym same) h in rw chosen (inl (sym e))
    | no n ↦
        let rest = get-ids p m k i (ground arith) h in
        elim (Bool-cases (p v)) [ inl chosen ↦ rw chosen (inr rest) | inr left ↦ rw left rest ]
  ]

module _ {F E M : Type 0} (f : F64 F) (now : ℕ) where
  to_disconnected-timed_out :
      (x : Local F E M) → timed_out now (to_disconnected now x).0.info ≡ false
  unfolding to_disconnected
  to_disconnected-timed_out x = ground arith

  -- The peers that are past the timeout are among those listed.
  abbrev Listed : PeerDb F E M → List ℕ → Type 0
  Listed db ks =
      (k : ℕ) (i : PeerInfo F E M)
      → Assoc.get ℕ_discrete k db.peers ≡ some i
      → timed_out now i ≡ true
      → k ∈ ks

  disconnected-Listed :
      (db : PeerDb F E M) (j : ℕ) (ks : List ℕ)
      → Listed db (j ∷ ks)
      → Listed (update_connection_state f db now j NewConnectionState.disconnected).0 ks
  unfolding update_connection_state
  disconnected-Listed db j ks l k i held late =
      let x : Local F E M = record {
        info = entry f db now j NewConnectionState.disconnected;
        disconnected_count = db.disconnected_peers;
        banned_count = db.banned_peers_count;
      } in
      let y = (to_disconnected now x).0.info in
      let written = Assoc.get-insert ℕ_discrete j k y db.peers in
      let over = to_disconnected-timed_out x in
      elim (ℕ_discrete j k) [
        | yes e ↦
            let same : y ≡ i = ground (arith, written) in
            let wrong : timed_out now y ≡ true =
              subst (λ w. timed_out now w ≡ true) (sym same) late in
            cc
        | no n ↦ elim (l k i (ground (arith, written)) late) [
          | inl e ↦ absurd (n (sym e))
          | inr rest ↦ rest
        ]
      ]

  disconnect_all-Listed :
      (ks : List ℕ) (db : PeerDb F E M) → Listed db ks → Listed (disconnect_all f db now ks) []
  unfolding disconnect_all
  disconnect_all-Listed [] db l = l
  disconnect_all-Listed (k ∷ ks) db l = disconnect_all-Listed ks _ (disconnected-Listed db k ks l)

  disconnect_all-Coherent :
      (ks : List ℕ) (db : PeerDb F E M)
      → Coherent db
      → HasRoom (length ks) db
      → Coherent (disconnect_all f db now ks)
  unfolding disconnect_all
  disconnect_all-Coherent [] db c room = c
  disconnect_all-Coherent (k ∷ ks) db c room =
      disconnect_all-Coherent ks _
        (update_connection_state-Coherent f now db k NewConnectionState.disconnected c (omega arith)
          tt)
        (update_connection_state-HasRoom f now db k (length ks) NewConnectionState.disconnected
          room)

  -- After the cleanup of a coherent database no peer has been dialed for longer than the timeout, and
  -- the database is coherent, where it has room for a call for each peer that was.
  pub cleanup_dialing_peers_lem :
      (db : PeerDb F E M)
      → Coherent db
      → HasRoom (length (ids (timed_out now) db)) db
      → let db' = cleanup_dialing_peers f db now in
        Coherent db'
        × ((k : ℕ) (i : PeerInfo F E M)
            → Assoc.get ℕ_discrete k db'.peers ≡ some i
            → timed_out now i ≡ false)
  unfolding cleanup_dialing_peers
  cleanup_dialing_peers_lem db c room = (
    disconnect_all-Coherent _ db c room,
    λ k i held. elim (Bool-cases (timed_out now i)) [
      | inl late ↦
          absurd (disconnect_all-Listed _ db (get-ids (timed_out now) db.peers) k i held late)
      | inr fine ↦ fine
    ],
  )
