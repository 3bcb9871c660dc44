-- ===== src/Rpc/Handler/Examples.antt =====
-- Runs of the connection handler on small inputs. Identifiers, blocks and metadata are numbers.
use consentry.Common.Assoc
use consentry.Common.{
  ℕ, suc, ◌+◌, ◌≤◌, ◌≡◌, ◌⊎◌, inl, inr, refl, sym, ltb, ltb→lt, u64_mod, Bool-cases, true, false,
  if◌then◌else◌, none, List, [], ◌∷◌, ◌++◌, map, length, arith, ℕ_discrete, subst,
}
use consentry.Rpc.Methods.{RpcResponse, RpcCodedResponse, success, GoodbyeReason}
use consentry.Rpc.Protocol.{InboundRequest, expected_responses, protocol, Protocol, RpcError}
use consentry.Rpc.Messages.{RpcSend}
use consentry.Rpc.Handler.{
  RpcHandler, HandlerState, InboundInfo, busy, UpgradeErr, apply, max_dial_negotiated, shutdown,
  send_request,
}
use consentry.Rpc.Handler.Inject.{
  inject_event, inject_fully_negotiated_outbound, inject_dial_upgrade_error, is_drained,
}
use consentry.Rpc.Handler.Streams.{Sent, drive}
use consentry.Rpc.Handler.Poll.{
  Answers, custom, close, Next, item, poll, purge_inbound, purge_outbound, drive_inbound, drive_all,
  drive_outbound,
}
use consentry.Rpc.Handler.Order.{Budget, backlog, drive-Keeps}
use consentry.Rpc.Handler.Frames.{Held, Told}
use consentry.Rpc.Handler.Calls.{Waits}
use consentry.Rpc.Handler.Swarm.{
  System, Step, Reaches, begun, then_step, start, asks, opened, events_of, is_retried, polls,
}
use consentry.Rpc.Handler.Requests.{
  dials_counted, none_forgotten, drained-reported, retries-exhausted,
}
use consentry.Rpc.Handler.Closing.{shutdown_ends}

abbrev Sys : Type 0
Sys = System ℕ ℕ ℕ

-- What happens to a handler; an answer of the swarm is about the latest substream in negotiation.
data Action : Type 0 where
  ask : RpcSend ℕ ℕ ℕ → Action
  poll_once : Answers ℕ ℕ → Action
  negotiate : Action
  fail : UpgradeErr → Action

abbrev negotiate_first : Sys → List (ℕ × InboundRequest) → Sys
negotiate_first s [] = s
negotiate_first s ((id, req) ∷ rest) =
    if ltb (s.handler.current_outbound_substream_id + 1) u64_mod
    then record s {
      handler = inject_fully_negotiated_outbound s.handler id req;
      negotiating = rest;
    }
    else s

abbrev fail_first : Sys → UpgradeErr → List (ℕ × InboundRequest) → Sys
fail_first s err [] = s
fail_first s err ((id, req) ∷ rest) = record s {
  handler = inject_dial_upgrade_error s.handler id req err;
  negotiating = rest;
  retried = if is_retried s.handler err then suc s.retried else s.retried;
}

-- An answer of the swarm that does not apply changes nothing.
abbrev act : Sys → Action → Sys
act s (ask e) = record s { handler = inject_event s.handler e; asked = asks e ++ s.asked }
act s (poll_once a) = record s {
  handler = (poll a s.handler).0;
  negotiating = opened (poll a s.handler).1 ++ s.negotiating;
  reported = events_of (poll a s.handler).1 ++ s.reported;
}
act s negotiate = negotiate_first s s.negotiating
act s (fail err) = fail_first s err s.negotiating

abbrev run : List Action → Sys → Sys
run [] s = s
run (x ∷ xs) s = run xs (act s x)

negotiate-Reaches :
    (s : Sys) (q : List (ℕ × InboundRequest))
    → s.negotiating ≡ q
    → Reaches s
    → Reaches (negotiate_first s q)
negotiate-Reaches s [] e r = r
negotiate-Reaches s ((id, req) ∷ rest) e r =
    elim (Bool-cases (ltb (s.handler.current_outbound_substream_id + 1) u64_mod)) [
      | inl room ↦ rw room (then_step r (Step.negotiated [] rest id req e (ltb→lt _ _ room) refl))
      | inr full ↦ rw full r
    ]

fail-Reaches :
    (s : Sys) (err : UpgradeErr) (q : List (ℕ × InboundRequest))
    → s.negotiating ≡ q
    → Reaches s
    → Reaches (fail_first s err q)
fail-Reaches s err [] e r = r
fail-Reaches s err ((id, req) ∷ rest) e r =
    then_step r (Step.upgrade_failed [] rest id req err e refl)

act-Reaches : (s : Sys) (x : Action) → Reaches s → Reaches (act s x)
act-Reaches s (ask e) r = then_step r (Step.told e refl)
act-Reaches s (poll_once a) r = then_step r (Step.polled a refl)
act-Reaches s negotiate r = negotiate-Reaches s s.negotiating refl r
act-Reaches s (fail err) r = fail-Reaches s err s.negotiating refl r

run-Reaches : (xs : List Action) (s : Sys) → Reaches s → Reaches (run xs s)
run-Reaches [] s r = r
run-Reaches (x ∷ xs) s r = run-Reaches xs (act s x) (act-Reaches s x r)

abbrev runs : List Action → Sys
runs xs = run xs start

runs-Reaches : (xs : List Action) → Reaches (runs xs)
runs-Reaches xs = run-Reaches xs start begun

-- Nothing is ready.
abbrev quiet : Answers ℕ ℕ
quiet = record {
  shutdown_timer = false;
  inbound_expired = [];
  outbound_expired = [];
  inbound_sent = λ _. [];
  inbound_close = λ _. none;
  outbound_next = λ _. Next.pending;
  outbound_close = λ _. false;
}

abbrev metadata : InboundRequest
metadata = InboundRequest.meta_data

-- A request for metadata that is dialed, answered with 9 and closed.
abbrev answered : Answers ℕ ℕ
answered = record quiet {
  outbound_next = λ _. item (success (RpcResponse.meta_data 9));
  outbound_close = λ _. true;
}

abbrev exchange : List Action
exchange =
    ask (RpcSend.request 7 metadata)
    ∷ poll_once quiet
    ∷ negotiate
    ∷ poll_once answered
    ∷ poll_once answered
    ∷ []

abbrev reset : UpgradeErr
reset = apply (RpcError.io_error [])

-- Two retries and one dial that is given up, then two retries of the fourth request.
abbrev two_retries : List Action
two_retries =
    ask (RpcSend.request 7 metadata)
    ∷ poll_once quiet
    ∷ fail reset
    ∷ poll_once quiet
    ∷ fail reset
    ∷ []

abbrev given_up : List Action
given_up = poll_once quiet ∷ fail reset ∷ poll_once quiet ∷ []

abbrev eight_retries : List Action
eight_retries =
    two_retries ++ given_up ++ two_retries ++ given_up ++ two_retries ++ given_up ++ two_retries

exchange_drains : is_drained (runs exchange).handler ≡ true
unfolding inject_event send_request poll purge_inbound purge_outbound drive_inbound drive_all
    drive_outbound inject_fully_negotiated_outbound expected_responses protocol Assoc.get
    Assoc.insert Assoc.remove ℕ_discrete
exchange_drains = refl

eight_retried : (runs eight_retries).retried ≡ 8
unfolding inject_event send_request poll purge_inbound purge_outbound drive_inbound drive_all
    drive_outbound inject_dial_upgrade_error expected_responses protocol Assoc.get Assoc.insert
    Assoc.remove ℕ_discrete
eight_retried = refl

dials_counted_example :
    ((runs eight_retries).handler.dial_negotiated
      ≡ length (runs eight_retries).negotiating + (runs eight_retries).retried)
    × ((runs eight_retries).handler.dial_negotiated ≤ max_dial_negotiated)
dials_counted_example = dials_counted (runs eight_retries) (runs-Reaches eight_retries)

none_forgotten_example :
    Waits 7 (runs two_retries).negotiating
    ⊎ ((Waits 7 (runs two_retries).handler.dial_queue ⊎ Held 7 (runs two_retries).handler)
        ⊎ Told 7 (runs two_retries).reported)
unfolding expected_responses poll inject_event send_request purge_inbound purge_outbound
    drive_outbound drive_inbound inject_dial_upgrade_error drive_all
none_forgotten_example =
    none_forgotten (runs two_retries) 7 (runs-Reaches two_retries) (inl (refl, omega arith))

drained-reported_example : Told 7 (runs exchange).reported
unfolding expected_responses poll inject_event send_request purge_inbound purge_outbound
    drive_outbound drive_inbound
drained-reported_example =
    drained-reported (runs exchange) 7 (runs-Reaches exchange) exchange_drains
      (inl (refl, omega arith))

retries-exhausted_example :
    (opened (poll quiet (runs eight_retries).handler).1 ≡ [])
    × (((runs eight_retries).negotiating ≡ []) × (is_drained (runs eight_retries).handler ≡ false))
retries-exhausted_example =
    retries-exhausted (runs eight_retries) quiet (runs-Reaches eight_retries)
      (subst (λ n. max_dial_negotiated ≤ n) (sym eight_retried) (omega arith))

-- A handler that shuts down with a request queued.
abbrev closing_handler : RpcHandler ℕ ℕ ℕ
closing_handler =
    (runs (
      ask (RpcSend.request 7 metadata) ∷ ask (RpcSend.shutdown 8 GoodbyeReason.fault) ∷ [])).handler

closing_state : closing_handler.state ≡ HandlerState.shutting_down
unfolding inject_event send_request shutdown
closing_state = refl

shutdown_ends_example :
    polls
      (suc (length closing_handler.events_out))
      (record quiet { shutdown_timer = true })
      closing_handler
    ≡ (
      record closing_handler { events_out = []; state = HandlerState.deactivated },
      map custom closing_handler.events_out ++ close RpcError.disconnected ∷ [],
    )
shutdown_ends_example =
    shutdown_ends (record quiet { shutdown_timer = true }) refl closing_handler closing_state

-- A substream that expects three responses and is sending its second; two are ready to be sent.
abbrev block : ℕ → RpcCodedResponse ℕ ℕ
block n = success (RpcResponse.blocks_by_range n)

abbrev sending : InboundInfo ℕ ℕ
sending = record {
  state = busy (block 1 ∷ []) (block 2) false;
  pending_items = block 3 ∷ [];
  protocol = Protocol.blocks_by_range;
  remaining_chunks = 2;
  delay_key = true;
}

abbrev sent_ok : Sent
sent_ok = record { send = none; close = none }

drive-Keeps_example :
    let j = (drive {ReqId = ℕ} false 0 (sent_ok ∷ []) none sending).info in
    Budget 3 j × (backlog j.state j.pending_items ≡ block 1 ∷ block 2 ∷ block 3 ∷ [])
drive-Keeps_example =
    drive-Keeps ℕ false 0 3 (sent_ok ∷ []) none sending
      (record { adds_up = refl; left = omega arith; last = refl })
