-- ===== src/Capability/Tests.antt =====
-- The theorems about internal/capability at inputs where they apply.
use skillex.Prelude.{◌*◌, ◌≡◌, refl, some, Text, codes, ok, err, arith, text_eq, trim_space}
use skillex.Errors.{invalid_reference}
use skillex.Capability.Integers.{pos}
use skillex.Capability.Description.{marshal_description}
use skillex.Capability.Model.{
  with_computed_schema_digest, validate, compute_schema_digest, canonical_json,
}
use skillex.Capability.Reference.{second, reference, issue, verify, well_formed}
use skillex.Capability.Reference.Laws.{Grants, verify_sound, verify-reference}
use skillex.Capability.Reference.Issued.{issue-verify, issue-verify_subsecond}
use skillex.Capability.Samples.{
  plain, sample, signer, shifted, shifted-IsEncoding, issued_at, sample_claims, brief, brief_claims,
  brief_codec, codec_for-IsEncoding,
}

described : marshal_description (some (codes "{}")) (pos 2) ≡ ok (codes "{}")
unfolding marshal_description
described = refl

digested : with_computed_schema_digest plain sample ≡ ok sample
unfolding with_computed_schema_digest validate compute_schema_digest canonical_json text_eq
    trim_space
digested = refl

issued :
    issue shifted plain signer issued_at (some (codes "n")) sample (codes "v") (codes "x")
    ≡ ok (reference shifted signer (codes "claims"))
unfolding issue with_computed_schema_digest validate compute_schema_digest canonical_json text_eq
    trim_space
issued = refl

granted : Grants shifted (codes "claims") (159 * second) sample_claims
unfolding well_formed
granted = (refl, refl, refl)

verify-reference_example :
    verify shifted signer (159 * second) (reference shifted signer (codes "claims"))
    ≡ ok sample_claims
verify-reference_example =
    verify-reference shifted shifted-IsEncoding signer (159 * second) (codes "claims") sample_claims
      granted

accepted :
    verify shifted signer (159 * second) (reference shifted signer (codes "claims"))
    ≡ ok sample_claims
accepted =
    verify-reference shifted shifted-IsEncoding signer (159 * second) (codes "claims") sample_claims
      granted

verify_sound_example :
    (payload : Text) × (reference shifted signer (codes "claims")
      ≡ reference shifted signer payload)
    × Grants shifted payload (159 * second) sample_claims
verify_sound_example =
    verify_sound shifted signer (159 * second) (reference shifted signer (codes "claims"))
      sample_claims accepted

issue-verify_example :
    verify shifted signer (159 * second) (reference shifted signer (codes "claims"))
    ≡ ok sample_claims
issue-verify_example =
    issue-verify shifted plain signer issued_at (159 * second) (codes "n") sample sample (codes "v")
      (codes "x") (reference shifted signer (codes "claims")) shifted-IsEncoding (λ p e. refl)
      digested issued refl (omega arith) (omega arith) (omega arith)

issued_briefly :
    issue brief_codec plain brief issued_at (some (codes "n")) sample (codes "v") (codes "x")
    ≡ ok (reference brief_codec brief (codes "claims"))
unfolding issue with_computed_schema_digest validate compute_schema_digest canonical_json text_eq
    trim_space
issued_briefly = refl

issue-verify_subsecond_example :
    verify brief_codec brief issued_at (reference brief_codec brief (codes "claims"))
    ≡ err invalid_reference
issue-verify_subsecond_example =
    issue-verify_subsecond brief_codec plain brief issued_at issued_at (codes "n") sample sample
      (codes "v") (codes "x") (reference brief_codec brief (codes "claims"))
      (codec_for-IsEncoding brief_claims) (λ p e. refl) digested issued_briefly (omega arith)
