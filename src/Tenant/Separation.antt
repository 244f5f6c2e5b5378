-- ===== src/Tenant/Separation.antt =====
-- When the partitions and the keys of internal/tenant/principal.go keep tenants apart.
use skillex.Prelude.{
  ◌≡◌, refl, sym, ◌∙◌, Bool, true, false, not, [], ◌∷◌, ◌++◌, Text, codes, text_eq, text_eq_iff,
  any, ◌==◌, length, ltb, ok, guard-eq-ok, arith, Bool-cases, inl, inr,
}
use skillex.Errors.{other}
use skillex.Tenant.{
  Principal, is_valid, partition, partition_message, derive_signing_key, signing_message, user,
  workload,
}

-- A text with a zero byte in it.
abbrev pub has_zero : Text → Bool
has_zero s = any (λ c. c == 0) s

-- Before the first zero byte, and after it.
split_at_zero :
    (a b : Text) (s t : Text)
    → has_zero a ≡ false
    → has_zero b ≡ false
    → a ++ 0 ∷ s ≡ b ++ 0 ∷ t
    → (a ≡ b) × (s ≡ t)
split_at_zero [] [] s t ha hb h = (refl, ground arith)
split_at_zero [] (y ∷ b) s t ha hb h = absurd (ground arith)
split_at_zero (x ∷ a) [] s t ha hb h = absurd (ground arith)
split_at_zero (x ∷ a) (y ∷ b) s t ha hb h =
    let (same, rest) = split_at_zero a b s t (ground arith) (ground arith) (ground arith) in
    (ground (arith, same), rest)

prefix-cancel : (p : Text) {s t : Text} → p ++ s ≡ p ++ t → s ≡ t
prefix-cancel [] h = h
prefix-cancel (x ∷ p) h = prefix-cancel p (ground arith)

is_valid-kind : (p : Principal) → is_valid p ≡ true → has_zero p.kind ≡ false
unfolding is_valid
is_valid-kind p h = elim (Bool-cases (text_eq p.kind user)) [
  | inl u ↦ rw ((text_eq_iff p.kind user).0 u) refl
  | inr u ↦
      let w : text_eq p.kind workload ≡ true = ground arith in
      rw ((text_eq_iff p.kind workload).0 w) refl
]

partition-ok :
    (mac : Text → Text → Text) (encode : Text → Text) (key : Text) (p : Principal) {a : Text}
    → partition mac encode key p ≡ ok a
    → (ltb (length key) 32 ≡ false)
      × (is_valid p ≡ true)
      × (codes "tenant:v1:" ++ encode (mac key (partition_message p)) ≡ a)
unfolding partition
partition-ok mac encode key p h =
    let (long, k) = guard-eq-ok (not (ltb (length key) 32)) other _ h in
    let (valid, m) = guard-eq-ok (is_valid p) other _ k in (ground arith, valid, cc)

partition_message-fields :
    (p q : Principal)
    → is_valid p ≡ true
    → is_valid q ≡ true
    → has_zero p.tenant_id ≡ false
    → has_zero q.tenant_id ≡ false
    → partition_message p ≡ partition_message q
    → (p.tenant_id ≡ q.tenant_id) × (p.kind ≡ q.kind) × (p.subject ≡ q.subject)
unfolding partition_message
partition_message-fields p q vp vq hp hq h =
    let (tenants, rest) = split_at_zero p.tenant_id q.tenant_id _ _ hp hq h in
    let (kinds, subjects) =
      split_at_zero p.kind q.kind _ _ (is_valid-kind p vp) (is_valid-kind q vq) rest in
    (tenants, kinds, subjects)

-- Two principals that are given the same partition have the same tenant, kind and subject, where
-- neither tenant's name has a zero byte in it, and the HMAC and its encoding do not collide on them.
pub partition-separates :
    (mac : Text → Text → Text) (encode : Text → Text) (key : Text) (p q : Principal) {a : Text}
    → ((s t : Text) → encode s ≡ encode t → s ≡ t)
    → (mac key (partition_message p) ≡ mac key (partition_message q)
        → partition_message p ≡ partition_message q)
    → has_zero p.tenant_id ≡ false
    → has_zero q.tenant_id ≡ false
    → partition mac encode key p ≡ ok a
    → partition mac encode key q ≡ ok a
    → (p.tenant_id ≡ q.tenant_id) × (p.kind ≡ q.kind) × (p.subject ≡ q.subject)
partition-separates mac encode key p q encode-injective no_collision hp hq ok_p ok_q =
    let (long, vp, ep) = partition-ok mac encode key p ok_p in
    let (long', vq, eq) = partition-ok mac encode key q ok_q in
    let encoded = prefix-cancel (codes "tenant:v1:") (ep ∙ sym eq) in
    partition_message-fields p q vp vq hp hq (no_collision (encode-injective _ _ encoded))

-- Signing keys that are equal were derived for the same tenant and the same purpose, where neither
-- tenant's name has a zero byte in it and the HMAC does not collide on them.
pub derive_signing_key-separates :
    (mac : Text → Text → Text) (master t u purpose other_purpose : Text) {key : Text}
    → (mac master (signing_message t purpose) ≡ mac master (signing_message u other_purpose)
        → signing_message t purpose ≡ signing_message u other_purpose)
    → has_zero t ≡ false
    → has_zero u ≡ false
    → derive_signing_key mac master t purpose ≡ ok key
    → derive_signing_key mac master u other_purpose ≡ ok key
    → (t ≡ u) × (purpose ≡ other_purpose)
unfolding derive_signing_key signing_message
derive_signing_key-separates mac master t u purpose other_purpose no_collision ht hu ok_t ok_u =
    let same = no_collision (ground (arith, ok_t, ok_u)) in
    split_at_zero t u purpose other_purpose ht hu
      (prefix-cancel (codes "skillex-hosted-key:v1" ++ 0 ∷ []) same)
