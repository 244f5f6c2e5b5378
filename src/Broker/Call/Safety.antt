-- ===== src/Broker/Call/Safety.antt =====
-- What CallWithInput of internal/broker/broker.go does outside the broker, and when.
use skillex.Prelude.{
  ℕ, ◌+◌, ◌≡◌, refl, Bool, true, false, ◌||◌, Option, none, some, List, [], ◌∷◌, ◌++◌, Text,
  text_eq, text_eq_iff, Result, ok, err, arith, any,
}
use skillex.Errors.{Error}
use skillex.Capability.Availability
use skillex.Capability.Model.{Capability}
use skillex.Broker.Types.{
  Broker, RequestContext, Traced, Action, open_failed, opened, invoked, closed, allow, Connector,
  Downstream, CallResult, UsageEvent, record_event,
}
use skillex.Broker.Describe.{describe, describe_sound, Selected}
use skillex.Broker.Call.{
  attempt, call_selected, call_described, call_with_input, rejected, prepend, finish, invoke,
}

-- A connector was asked for.
abbrev pub is_open : Action → Bool
is_open opened = true
is_open open_failed = true
is_open _ = false

abbrev pub count {ℓ} : {A : Type ℓ} → (A → ℕ) → List A → ℕ
count f [] = 0
count f (x ∷ xs) = f x + count f xs

abbrev pub opening : Action → ℕ
opening opened = 1
opening _ = 0

abbrev pub closing : Action → ℕ
closing closed = 1
closing _ = 0

abbrev pub invoking : Action → ℕ
invoking invoked = 1
invoking _ = 0

any-append {ℓ} :
    {A : Type ℓ} (p : A → Bool) (xs ys : List A) → any p (xs ++ ys) ≡ (any p xs || any p ys)
any-append p [] ys = refl
any-append p (x ∷ xs) ys = ground (arith, any-append p xs ys)

module _ {Args Value : Type 0} (b : Broker) (d : Downstream Args Value) (args inputs : Args)
    (state : Text) where
  call_selected-opens :
      (c : Capability)
      → any is_open (call_selected b d c args inputs state).0 ≡ true
      → (text_eq c.availability Availability.ready ≡ true)
        × (d.valid_arguments c.input_schema args ≡ true)
        × (d.evaluate c args ≡ ok allow)
  unfolding call_selected record_event
  call_selected-opens c h = ground arith

  any-recorded : (e : UsageEvent) → any is_open (record_event b e) ≡ false
  unfolding record_event
  any-recorded e = ground arith

  call_described-opens :
      (t : Traced Capability)
      → any is_open t.0 ≡ false
      → any is_open (call_described b d args inputs state t).0 ≡ true
      → (c : Capability) × (t.1 ≡ ok c)
        × (text_eq c.availability Availability.ready ≡ true)
        × (d.valid_arguments c.input_schema args ≡ true)
        × (d.evaluate c args ≡ ok allow)
  unfolding call_described prepend
  call_described-opens (actions, err e) quiet h = absurd (
      ground (
        arith,
        any-append is_open actions (record_event b (rejected b d)),
        any-recorded (rejected b d),
      ))
  call_described-opens (actions, ok c) quiet h =
      let opens : any is_open (call_selected b d c args inputs state).0 ≡ true =
        ground (arith, any-append is_open actions (call_selected b d c args inputs state).0) in
      let (ready, valid, allowed) = call_selected-opens c opens in (c, refl, ready, valid, allowed)

  call_described-ok :
      (t : Traced Capability) {r : CallResult Value}
      → (call_described b d args inputs state t).1 ≡ ok r
      → (c : Capability) × (t.1 ≡ ok c) × ((call_selected b d c args inputs state).1 ≡ ok r)
  unfolding call_described prepend
  call_described-ok (actions, err e) h = cc
  call_described-ok (actions, ok c) h = (c, refl, h)

  finish-ok :
      (c : Capability) (answer : Option (Result Error Value)) {r : CallResult Value}
      → (finish b d c answer).1 ≡ ok r
      → (answer ≡ some (ok r.result))
        × (r.server ≡ c.server)
        × (r.kind ≡ c.kind)
        × (r.name ≡ c.name)
  unfolding finish
  finish-ok c none h = cc
  finish-ok c (some (err e)) h = cc
  finish-ok c (some (ok v)) h = (ground arith, ground arith, ground arith, ground arith)

  invoke-ok :
      (c : Capability) (o : Result Error (Connector Args Value)) {r : CallResult Value}
      → (invoke b d c args inputs state o).1 ≡ ok r
      → (connector : Connector Args Value) × (o ≡ ok connector)
        × ((finish b d c (attempt d connector c args inputs state)).1 ≡ ok r)
  unfolding invoke prepend
  invoke-ok c (err e) h = cc
  invoke-ok c (ok connector) h = (connector, refl, h)

  call_selected-invokes :
      (c : Capability) {r : CallResult Value}
      → (call_selected b d c args inputs state).1 ≡ ok r
      → (invoke b d c args inputs state (d.open_connector c)).1 ≡ ok r
  unfolding call_selected
  call_selected-invokes c h = ground arith

  call_selected-ok :
      (c : Capability) {r : CallResult Value}
      → (call_selected b d c args inputs state).1 ≡ ok r
      → (connector : Connector Args Value) × (d.open_connector c ≡ ok connector)
        × (attempt d connector c args inputs state ≡ some (ok r.result))
        × (r.server ≡ c.server)
        × (r.kind ≡ c.kind)
        × (r.name ≡ c.name)
  call_selected-ok c h =
      let (connector, e, finished) = invoke-ok c (d.open_connector c) (call_selected-invokes c h) in
      let (answered, s, k, n) = finish-ok c (attempt d connector c args inputs state) finished in
      (connector, e, answered, s, k, n)

  module _ (now : ℕ) (ref : Text) (request : RequestContext) where
    describe-quiet : any is_open (describe b now ref request).0 ≡ false
    unfolding describe record_event
    describe-quiet = ground arith

    -- A connector is asked for only for a capability that a verified reference of this context and
    -- view names, that the catalog still has unchanged, that is ready, whose input schema the
    -- arguments satisfy and whose invocation the policy allows.
    pub call_with_input-opens :
        any is_open (call_with_input b d now ref args inputs state request).0 ≡ true
        → (c : Capability) × Selected b now ref request c
          × (c.availability ≡ Availability.ready)
          × (d.valid_arguments c.input_schema args ≡ true)
          × (d.evaluate c args ≡ ok allow)
    unfolding call_with_input
    call_with_input-opens h =
        let (c, described, ready, valid, allowed) =
          call_described-opens (describe b now ref request) describe-quiet h in
        (
          c,
          describe_sound b now ref request c described,
          (text_eq_iff c.availability Availability.ready).0 ready,
          valid,
          allowed,
        )

    -- A call that succeeds has reached the server through a connector that it opened for a capability
    -- of the reference, and its result is what the connector gave, attributed to that capability's
    -- server, kind and name.
    pub call_with_input-attributed :
        {r : CallResult Value}
        → (call_with_input b d now ref args inputs state request).1 ≡ ok r
        → (c : Capability) × (connector : Connector Args Value) × Selected b now ref request c
          × (d.open_connector c ≡ ok connector)
          × (attempt d connector c args inputs state ≡ some (ok r.result))
          × (r.server ≡ c.server)
          × (r.kind ≡ c.kind)
          × (r.name ≡ c.name)
    unfolding call_with_input
    call_with_input-attributed h =
        let (c, described, called) = call_described-ok (describe b now ref request) h in
        let (connector, opened_for, answered, s, k, n) = call_selected-ok c called in
        (c, connector, describe_sound b now ref request c described, opened_for, answered, s, k, n)
