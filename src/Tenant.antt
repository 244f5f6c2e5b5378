-- ===== src/Tenant.antt =====
-- internal/tenant/principal.go: the principals of a hosted broker and the partitions of its state.
-- HMAC-SHA-256 is `mac`, with the key first, and base64 is `encode`.
pub mod Separation
mod Tests
use skillex.Prelude.{
  Bool, ◌||◌, ◌&&◌, not, Option, none, some, List, [], ◌∷◌, ◌++◌, Text, codes, is_empty, text_eq,
  length, ltb, Result, ok, err, ◌>>=◌, ◌>>◌, guard, if◌then◌else◌,
}
use skillex.Errors.{Error, other}

-- PrincipalKind
abbrev pub user : Text
user = codes "user"

abbrev pub workload : Text
workload = codes "workload"

-- Principal
pub record Principal : Type 0 where
  pub tenant_id : Text
  pub subject : Text
  pub kind : Text

-- Principal.Validate gives no error
unfoldable pub is_valid : Principal → Bool
is_valid p = not (
    is_empty p.tenant_id
    || (is_empty p.subject || (not (text_eq p.kind user) && not (text_eq p.kind workload))))

-- What Partition writes to the HMAC.
unfoldable pub partition_message : Principal → Text
partition_message p = p.tenant_id ++ 0 ∷ (p.kind ++ 0 ∷ p.subject)

-- Partition
unfoldable pub partition :
    (Text → Text → Text) → (Text → Text) → Text → Principal → Result Error Text
partition mac encode key p = do
  guard (not (ltb (length key) 32)) other
  guard (is_valid p) other
  ok (codes "tenant:v1:" ++ encode (mac key (partition_message p)))

-- What DeriveSigningKey writes to the HMAC.
unfoldable pub signing_message : Text → Text → Text
signing_message tenant_id purpose = codes "skillex-hosted-key:v1" ++ 0 ∷ (tenant_id ++ 0 ∷ purpose)

-- DeriveSigningKey
unfoldable pub derive_signing_key : (Text → Text → Text) → Text → Text → Text → Result Error Text
derive_signing_key mac master tenant_id purpose =
    if ltb (length master) 32 || (is_empty tenant_id || is_empty purpose)
    then err other
    else ok (mac master (signing_message tenant_id purpose))
