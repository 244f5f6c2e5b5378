-- ===== src/Capability/Availability.antt =====
-- AvailabilityStatus of internal/capability/model.go.
use skillex.Prelude.{Text, codes}

abbrev pub discovered : Text
discovered = codes "discovered"

abbrev pub suggested : Text
suggested = codes "suggested"

abbrev pub setup_required : Text
setup_required = codes "setup-required"

abbrev pub credential_missing : Text
credential_missing = codes "credential-missing"

abbrev pub login_required : Text
login_required = codes "login-required"

abbrev pub scope_required : Text
scope_required = codes "scope-required"

abbrev pub ready : Text
ready = codes "ready"

abbrev pub unsupported_auth : Text
unsupported_auth = codes "unsupported-authentication"

abbrev pub policy_denied : Text
policy_denied = codes "policy-denied"

abbrev pub unreachable : Text
unreachable = codes "unreachable"

abbrev pub stale : Text
stale = codes "stale"
