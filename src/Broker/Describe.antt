-- ===== src/Broker/Describe.antt =====
-- Describe of internal/broker/broker.go.
use skillex.Prelude.{
  ℕ, ◌≡◌, ◌∙◌, Bool, true, ◌&&◌, [], Text, codes, text_eq, text_eq_iff, text_eq_refl, Result, ok,
  err, ◌>>=◌, ◌>>◌, guard, >>=-eq-ok, guard-eq-ok, arith,
}
use skillex.Errors.{Error, context_mismatch, view_mismatch, capability_changed}
use skillex.Capability.Model.{Capability, with_computed_schema_digest}
use skillex.Capability.Reference.{ReferenceClaims, verify}
use skillex.Broker.Types.{Broker, RequestContext, Traced, event_of, record_event}

-- The claims name the capability as it is now.
unfoldable pub same_capability : ReferenceClaims → Capability → Bool
same_capability claims c =
    text_eq claims.server c.server.identity.canonical_name
    && (text_eq claims.version c.server.version
        && (text_eq claims.kind c.kind
            && (text_eq claims.capability c.name && text_eq claims.schema_digest c.schema_digest)))

unfoldable pub same_routing : ReferenceClaims → Capability → Bool
same_routing claims c =
    text_eq claims.routing_scope c.routing_scope && text_eq claims.auth_profile c.auth_profile

-- The checks of Describe, without the event.
unfoldable pub select_capability : Broker → ℕ → Text → RequestContext → Result Error Capability
select_capability b now ref request = do
  claims ← verify b.codec b.signer now ref
  guard (text_eq claims.context_digest request.context_digest) context_mismatch
  guard (text_eq claims.view request.view) view_mismatch
  resolved ← b.catalog.resolve claims
  selected ← with_computed_schema_digest b.encoding resolved
  guard (same_capability claims selected) capability_changed
  guard (same_routing claims selected) capability_changed
  ok selected

report_described : Broker → Result Error Capability → Traced Capability
report_described b (err e) = ([], err e)
report_described b (ok selected) =
    (record_event b (event_of (codes "describe") selected (codes "success")), ok selected)

-- Describe
unfoldable pub describe : Broker → ℕ → Text → RequestContext → Traced Capability
unfolding report_described
describe b now ref request = report_described b (select_capability b now ref request)

-- The claims are those of a reference to this capability, in this request.
pub record Names (request : RequestContext) (claims : ReferenceClaims) (c : Capability)
    : Type 0 where
  pub context : claims.context_digest ≡ request.context_digest
  pub view : claims.view ≡ request.view
  pub server : claims.server ≡ c.server.identity.canonical_name
  pub version : claims.version ≡ c.server.version
  pub kind : claims.kind ≡ c.kind
  pub name : claims.capability ≡ c.name
  pub schema_digest : claims.schema_digest ≡ c.schema_digest
  pub routing_scope : claims.routing_scope ≡ c.routing_scope
  pub auth_profile : claims.auth_profile ≡ c.auth_profile

Names-checked :
    (request : RequestContext) (claims : ReferenceClaims) (c : Capability)
    → text_eq claims.context_digest request.context_digest ≡ true
    → text_eq claims.view request.view ≡ true
    → same_capability claims c ≡ true
    → same_routing claims c ≡ true
    → Names request claims c
unfolding same_capability same_routing
Names-checked request claims c x v k r = record {
  context = (text_eq_iff _ _).0 x;
  view = (text_eq_iff _ _).0 v;
  server = ground (arith, text_eq_iff claims.server c.server.identity.canonical_name);
  version = ground (arith, text_eq_iff claims.version c.server.version);
  kind = ground (arith, text_eq_iff claims.kind c.kind);
  name = ground (arith, text_eq_iff claims.capability c.name);
  schema_digest = ground (arith, text_eq_iff claims.schema_digest c.schema_digest);
  routing_scope = ground (arith, text_eq_iff claims.routing_scope c.routing_scope);
  auth_profile = ground (arith, text_eq_iff claims.auth_profile c.auth_profile);
}

-- What a call of Describe that succeeds has established.
pub record Selected (b : Broker) (now : ℕ) (ref : Text) (request : RequestContext) (c : Capability)
    : Type 0 where
  pub claims : ReferenceClaims
  pub resolved : Capability
  pub verified : verify b.codec b.signer now ref ≡ ok claims
  pub in_catalog : b.catalog.resolve claims ≡ ok resolved
  pub digested : with_computed_schema_digest b.encoding resolved ≡ ok c
  pub names : Names request claims c

module _ {request : RequestContext} {claims : ReferenceClaims} {c : Capability}
    (n : Names request claims c) where
  same_capability-Names : same_capability claims c ≡ true
  unfolding same_capability
  same_capability-Names =
      rw (n.server, n.version, n.kind, n.name, n.schema_digest) (simp text_eq_refl)

  same_routing-Names : same_routing claims c ≡ true
  unfolding same_routing
  same_routing-Names = rw (n.routing_scope, n.auth_profile) (simp text_eq_refl)

module _ (b : Broker) (now : ℕ) (ref : Text) (request : RequestContext) (c : Capability) where
  select_capability-parts :
      select_capability b now ref request ≡ ok c
      → (claims : ReferenceClaims) × (resolved : Capability) × (verify b.codec b.signer now ref
          ≡ ok claims)
        × (b.catalog.resolve claims ≡ ok resolved)
        × (with_computed_schema_digest b.encoding resolved ≡ ok c)
        × (text_eq claims.context_digest request.context_digest ≡ true)
        × (text_eq claims.view request.view ≡ true)
        × (same_capability claims c ≡ true)
        × (same_routing claims c ≡ true)
  unfolding select_capability
  select_capability-parts h =
      let (claims, v, h1) = >>=-eq-ok (verify b.codec b.signer now ref) _ h in
      let (x, h2) =
        guard-eq-ok (text_eq claims.context_digest request.context_digest) context_mismatch _ h1 in
      let (w, h3) = guard-eq-ok (text_eq claims.view request.view) view_mismatch _ h2 in
      let (resolved, r, h4) = >>=-eq-ok (b.catalog.resolve claims) _ h3 in
      let (selected, d, h5) = >>=-eq-ok (with_computed_schema_digest b.encoding resolved) _ h4 in
      let (k, h6) = guard-eq-ok (same_capability claims selected) capability_changed _ h5 in
      let (t, h7) = guard-eq-ok (same_routing claims selected) capability_changed _ h6 in
      let same : selected ≡ c = cc in
      (claims, resolved, v, r, d ∙ h7, x, w, rw same at k, rw same at t)

  -- A capability that Describe returns is the one that the catalog resolves the claims of a verified
  -- reference to: the claims are those of this context and view, and name its server, version, kind,
  -- name, current schema digest, routing scope and authentication profile.
  pub describe_sound : (describe b now ref request).1 ≡ ok c → Selected b now ref request c
  unfolding describe
  describe_sound h =
      let chosen : select_capability b now ref request ≡ ok c = ground arith in
      let (claims, resolved, v, r, d, x, w, k, t) = select_capability-parts chosen in
      record {
        claims = claims;
        resolved = resolved;
        verified = v;
        in_catalog = r;
        digested = d;
        names = Names-checked request claims c x w k t;
      }

  -- Describe returns a capability whenever a verified reference names it in this request and the
  -- catalog resolves its claims to it; nothing is done but to record the event.
  pub describe_complete :
      Selected b now ref request c
      → describe b now ref request
        ≡ (record_event b (event_of (codes "describe") c (codes "success")), ok c)
  unfolding describe select_capability
  describe_complete s = rw (
    s.verified,
    (text_eq_iff s.claims.context_digest request.context_digest).1 s.names.context,
    (text_eq_iff s.claims.view request.view).1 s.names.view,
    s.in_catalog,
    s.digested,
    same_capability-Names s.names,
    same_routing-Names s.names,
  )
