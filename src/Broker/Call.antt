-- ===== src/Broker/Call.antt =====
-- Call and CallWithInput of internal/broker/broker.go.
pub mod Protocol
pub mod Safety
use skillex.Prelude.{
  ℕ, Bool, true, false, not, Option, none, some, List, [], ◌∷◌, ◌++◌, Text, codes, is_empty,
  text_eq, if◌then◌else◌, Result, ok, err,
}
use skillex.Errors.{
  Error, capability_not_ready, tool_argument_invalid, policy_denied, approval_required,
  capability_not_callable, other,
}
use skillex.Capability.Kind
use skillex.Capability.Availability
use skillex.Capability.Model.{Capability}
use skillex.Broker.Types.{
  Broker, RequestContext, Traced, Action, recorded, evaluated, open_failed, opened, invoked, closed,
  PolicyEffect, allow, deny, unknown, Connector, Downstream, CallResult, UsageEvent, event_of,
  record_event,
}
use skillex.Broker.Describe.{describe}

-- A method that reaches the server, or an error that the broker gives in its place.
abbrev Attempt : Type 0 → Type 0
Attempt Value = Option (Result Error Value)

prepend : {A : Type 0} → List Action → Traced A → Traced A
prepend actions (later, r) = (actions ++ later, r)

module _ {Args Value : Type 0} where
  call_tool : Connector Args Value → Capability → Args → Args → Text → Attempt Value
  call_tool c selected args inputs state = elim c.call_tool_round [
    | some round ↦ some (round selected.name args inputs state)
    | none ↦ some (c.call_tool selected.name args)
  ]

  get_prompt : Connector Args Value → Capability → Args → Args → Text → Attempt Value
  get_prompt c selected args inputs state = elim c.get_prompt [
    | none ↦ none
    | some get ↦ elim c.get_prompt_round [
      | some round ↦ some (round selected.name args inputs state)
      | none ↦ some (get selected.name args)
    ]
  ]

  read_resource : Connector Args Value → Option Text → Args → Text → Attempt Value
  read_resource c uri inputs state = elim c.read_resource [
    | none ↦ none
    | some read ↦ elim uri [
      | none ↦ none
      | some u ↦ if is_empty u then none else elim c.read_resource_round [
        | some round ↦ some (round u inputs state)
        | none ↦ some (read u)
      ]
    ]
  ]

  -- switch selected.Kind
  unfoldable pub attempt :
      Downstream Args Value → Connector Args Value → Capability → Args → Args → Text → Attempt Value
  unfolding call_tool get_prompt read_resource
  attempt d c selected args inputs state =
      if text_eq selected.kind Kind.tool
      then call_tool c selected args inputs state
      else if text_eq selected.kind Kind.prompt
      then get_prompt c selected args inputs state
      else if text_eq selected.kind Kind.resource_template
      then read_resource c (d.uri args) inputs state
      else none

  module _ (b : Broker) (d : Downstream Args Value) where
    -- The closure `record` of CallWithInput.
    abbrev note : Capability → Text → List Action
    note selected outcome = record_event b (event_of (codes "call") selected outcome)

    abbrev rejected : UsageEvent
    rejected = record {
      operation = codes "call";
      server = [];
      version = [];
      kind = [];
      capability = [];
      availability = [];
      outcome = codes "reference-rejected";
      tenant_partition = [];
      principal_kind = [];
    }

    finish : Capability → Attempt Value → Traced (CallResult Value)
    finish selected none =
        (note selected (codes "tool-error") ++ closed ∷ [], err capability_not_callable)
    finish selected (some (err e)) =
        (invoked ∷ (note selected (codes "tool-error") ++ closed ∷ []), err e)
    finish selected (some (ok value)) = (
      invoked ∷ (note selected (codes "success") ++ closed ∷ []),
      ok (record {
        server = selected.server;
        kind = selected.kind;
        name = selected.name;
        result = value;
      }),
    )

    invoke :
        Capability
        → Args
        → Args
        → Text
        → Result Error (Connector Args Value)
        → Traced (CallResult Value)
    unfolding finish
    invoke selected args inputs state (err e) =
        (open_failed ∷ note selected (codes "connector-error"), err e)
    invoke selected args inputs state (ok c) =
        prepend (opened ∷ []) (finish selected (attempt d c selected args inputs state))

    apply_effect :
        Capability → Args → Args → Text → Result Error PolicyEffect → Traced (CallResult Value)
    unfolding invoke
    apply_effect selected args inputs state (err e) = (note selected (codes "policy-error"), err e)
    apply_effect selected args inputs state (ok allow) =
        invoke selected args inputs state (d.open_connector selected)
    apply_effect selected args inputs state (ok deny) =
        (note selected (codes "policy-denied"), err policy_denied)
    apply_effect selected args inputs state (ok PolicyEffect.approval_required) =
        (note selected (codes "approval-required"), err approval_required)
    apply_effect selected args inputs state (ok unknown) =
        (note selected (codes "policy-error"), err other)

    -- What CallWithInput does with the capability that Describe returns.
    unfoldable pub call_selected : Capability → Args → Args → Text → Traced (CallResult Value)
    unfolding apply_effect prepend
    call_selected selected args inputs state =
        if not (text_eq selected.availability Availability.ready)
        then (note selected (codes "not-ready"), err capability_not_ready)
        else if not (d.valid_arguments selected.input_schema args)
        then (note selected (codes "arguments-invalid"), err tool_argument_invalid)
        else prepend (evaluated ∷ [])
            (apply_effect selected args inputs state (d.evaluate selected args))

    call_described : Args → Args → Text → Traced Capability → Traced (CallResult Value)
    call_described args inputs state (actions, err e) = (actions ++ record_event b rejected, err e)
    call_described args inputs state (actions, ok selected) =
        prepend actions (call_selected selected args inputs state)

    -- CallWithInput
    unfoldable pub call_with_input :
        ℕ → Text → Args → Args → Text → RequestContext → Traced (CallResult Value)
    unfolding call_described prepend
    call_with_input now ref args inputs state request =
        call_described args inputs state (describe b now ref request)

    -- Call; `no_inputs` is the nil map.
    unfoldable pub call : ℕ → Text → Args → Args → RequestContext → Traced (CallResult Value)
    call now ref args no_inputs request = call_with_input now ref args no_inputs [] request
