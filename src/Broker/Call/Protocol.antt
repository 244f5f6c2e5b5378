-- ===== src/Broker/Call/Protocol.antt =====
-- The order of what CallWithInput of internal/broker/broker.go does outside the broker.
use skillex.Prelude.{
  ℕ, ◌≡◌, refl, ◌∙◌, Bool, true, false, List, [], ◌∷◌, ◌++◌, Text, codes, Result-cases, inl, inr,
  ok, err, arith,
}
use skillex.Capability.Model.{Capability}
use skillex.Broker.Types.{
  Broker, RequestContext, Traced, Action, recorded, evaluated, open_failed, opened, invoked, closed,
  Downstream, UsageEvent, event_of, record_event,
}
use skillex.Broker.Describe.{describe, select_capability}
use skillex.Broker.Call.{call_selected, call_described, call_with_input, rejected, prepend}

-- How far a call has come with its connector.
pub data Phase : Type 0 where
  before : Phase
  active : Phase
  after : Phase

-- The actions stand in the order that the protocol of a connector allows: the policy is asked before
-- one is opened, it is opened once, used only while it is open, closed once after that, and not left
-- open at the end.
abbrev pub follows : Phase → List Action → Bool
follows before [] = true
follows active [] = false
follows after [] = true
follows before (recorded e ∷ actions) = follows before actions
follows active (recorded e ∷ actions) = follows active actions
follows after (recorded e ∷ actions) = follows after actions
follows before (evaluated ∷ actions) = follows before actions
follows before (open_failed ∷ actions) = follows after actions
follows before (opened ∷ actions) = follows active actions
follows active (invoked ∷ actions) = follows active actions
follows active (closed ∷ actions) = follows after actions
follows _ _ = false

module _ {Args Value : Type 0} (b : Broker) (d : Downstream Args Value) (args inputs : Args)
    (state : Text) where
  follows-recorded :
      (phase : Phase) (e : UsageEvent) (later : List Action)
      → follows phase (record_event b e ++ later) ≡ follows phase later
  unfolding record_event
  follows-recorded before e later = ground arith
  follows-recorded active e later = ground arith
  follows-recorded after e later = ground arith

  call_selected-follows :
      (c : Capability) → follows before (call_selected b d c args inputs state).0 ≡ true
  unfolding call_selected record_event
  call_selected-follows c = ground arith

  call_described-follows :
      (t : Traced Capability)
      → ((later : List Action) → follows before (t.0 ++ later) ≡ follows before later)
      → follows before (call_described b d args inputs state t).0 ≡ true
  unfolding call_described prepend record_event
  call_described-follows (actions, err e) quiet =
      quiet (record_event b (rejected b d)) ∙ ground arith
  call_described-follows (actions, ok c) quiet =
      quiet (call_selected b d c args inputs state).0 ∙ call_selected-follows c

  module _ (now : ℕ) (ref : Text) (request : RequestContext) where
    describe-follows :
        (later : List Action)
        → follows before ((describe b now ref request).0 ++ later) ≡ follows before later
    unfolding describe
    describe-follows later = elim (Result-cases (select_capability b now ref request)) [
      | inl (c, e) ↦
          rw e (follows-recorded before (event_of (codes "describe") c (codes "success")) later)
      | inr (r, e) ↦ rw e refl
    ]

    -- A call follows the protocol.
    pub call_with_input-follows :
        follows before (call_with_input b d now ref args inputs state request).0 ≡ true
    unfolding call_with_input
    call_with_input-follows = call_described-follows (describe b now ref request) describe-follows
