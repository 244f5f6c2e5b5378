-- ===== src/Tenant/Tests.antt =====
-- The theorems about internal/tenant at inputs where they apply.
use skillex.Prelude.{◌≡◌, refl, ◌∷◌, ◌++◌, Text, codes, ok, text_eq}
use skillex.Tenant.{
  Principal, user, is_valid, partition, partition_message, derive_signing_key, signing_message,
}
use skillex.Tenant.Separation.{partition-separates, derive_signing_key-separates}

-- An HMAC that does not collide: the message itself.
abbrev mac : Text → Text → Text
mac key message = message

abbrev encode : Text → Text
encode s = s

abbrev key : Text
key = codes "0123456789abcdef0123456789abcdef"

abbrev alice : Principal
alice = record { tenant_id = codes "acme"; subject = codes "alice"; kind = user }

abbrev partition_of_alice : Text
partition_of_alice = codes "tenant:v1:" ++ partition_message alice

alice-partitioned : partition mac encode key alice ≡ ok partition_of_alice
unfolding partition is_valid text_eq
alice-partitioned = refl

partition-separates_example :
    (alice.tenant_id ≡ alice.tenant_id)
    × (alice.kind ≡ alice.kind)
    × (alice.subject ≡ alice.subject)
partition-separates_example =
    partition-separates mac encode key alice alice (λ s t h. h) (λ h. h) refl refl alice-partitioned
      alice-partitioned

abbrev reference_key : Text
reference_key = signing_message (codes "acme") (codes "refs")

reference_key-derived : derive_signing_key mac key (codes "acme") (codes "refs") ≡ ok reference_key
unfolding derive_signing_key
reference_key-derived = refl

derive_signing_key-separates_example : (codes "acme" ≡ codes "acme") × (codes "refs" ≡ codes "refs")
derive_signing_key-separates_example =
    derive_signing_key-separates mac key (codes "acme") (codes "acme") (codes "refs") (codes "refs")
      (λ h. h) refl refl reference_key-derived reference_key-derived

-- With a zero byte in its name a tenant can have the partition of another one.
abbrev outsider : Principal
outsider = record {
  tenant_id = codes "acme" ++ 0 ∷ (user ++ 0 ∷ codes "x");
  subject = codes "alice";
  kind = user;
}

abbrev insider : Principal
insider = record {
  tenant_id = codes "acme";
  subject = codes "x" ++ 0 ∷ (user ++ 0 ∷ codes "alice");
  kind = user;
}

outsider-collides : partition mac encode key outsider ≡ partition mac encode key insider
unfolding partition is_valid text_eq partition_message
outsider-collides = refl
