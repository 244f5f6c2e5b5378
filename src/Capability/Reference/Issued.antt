-- ===== src/Capability/Reference/Issued.antt =====
-- What Issue of internal/capability/ref.go gives, and how long Verify accepts it.
use skillex.Prelude.{
  ℕ, ◌+◌, ◌*◌, ◌/◌, ◌<◌, ◌≤◌, ◌≡◌, true, false, some, Text, is_empty, ok, err, arith,
}
use skillex.Errors.{invalid_reference}
use skillex.Capability.Model.{Capability, Encoding, with_computed_schema_digest}
use skillex.Capability.Model.Laws.{IsIdentified, with_computed_schema_digest-IsIdentified}
use skillex.Capability.Reference.{
  ReferenceClaims, Codec, ReferenceSigner, second, claims_of, well_formed, reference, issue, verify,
}
use skillex.Capability.Reference.Laws.{IsEncoding, verify-reference, verify-malformed}

module _ (codec : Codec) where
  -- encoding/json gives these claims back, as it does when their texts are valid UTF-8.
  abbrev pub RoundTrips : ReferenceClaims → Type 0
  RoundTrips claims = (p : Text) → codec.marshal claims ≡ some p → codec.unmarshal p ≡ some claims

module _ (codec : Codec) (enc : Encoding) (s : ReferenceSigner) (now : ℕ) (bytes : Text)
    (capability : Capability) (view context : Text) {ref : Text}
    (issued : issue codec enc s now (some bytes) capability view context ≡ ok ref) where
  -- What a call of Issue that succeeds has computed.
  pub issue-parts :
      (c : Capability) × (payload : Text) × (with_computed_schema_digest enc capability ≡ ok c)
      × (is_empty view ≡ false)
      × (is_empty context ≡ false)
      × (codec.marshal (claims_of c view context now s.ttl (codec.encode bytes)) ≡ some payload)
      × (ref ≡ reference codec s payload)
  unfolding issue
  issue-parts = ground arith

well_formed-claims_of :
    (enc : Encoding) (c : Capability) (view context : Text) (now ttl : ℕ) (nonce : Text)
    → IsIdentified enc c
    → is_empty view ≡ false
    → is_empty context ≡ false
    → is_empty nonce ≡ false
    → second ≤ now
    → second ≤ ttl
    → well_formed (claims_of c view context now ttl nonce) ≡ true
unfolding well_formed
well_formed-claims_of enc c view context now ttl nonce i v x n started whole =
    rw (i.canonical_name, i.version, i.kind, i.name, i.schema_digest, v, x, n) (ground arith)

-- A reference that Issue gives is accepted by Verify with the claims that were issued, until the
-- second of its expiry begins: if the time to live is at least a second, the clock is past the first
-- second of the epoch and the encodings round-trip.
pub issue-verify :
    (codec : Codec) (enc : Encoding) (s : ReferenceSigner) (now later : ℕ) (bytes : Text)
    (capability c : Capability) (view context ref : Text)
    → IsEncoding codec
    → RoundTrips codec (claims_of c view context now s.ttl (codec.encode bytes))
    → with_computed_schema_digest enc capability ≡ ok c
    → issue codec enc s now (some bytes) capability view context ≡ ok ref
    → is_empty bytes ≡ false
    → second ≤ now
    → second ≤ s.ttl
    → later < (now + s.ttl) / second * second
    → verify codec s later ref ≡ ok (claims_of c view context now s.ttl (codec.encode bytes))
issue-verify codec enc s now later bytes capability c view context ref b64 json digest issued drawn
      started whole early =
    let (c', payload, digest', v, x, marshalled, made) =
      issue-parts codec enc s now bytes capability view context issued in
    let same : c' ≡ c = cc in
    let i = (with_computed_schema_digest-IsIdentified enc capability c digest).1 in
    rw made (
      verify-reference codec b64 s later payload _ (
        json payload (rw same at marshalled),
        well_formed-claims_of enc c view context now s.ttl (codec.encode bytes) i v x
            (b64.encode-ne bytes drawn) started whole,
        ground arith,
      ))

not-well_formed-subsecond :
    (c : Capability) (view context : Text) (now ttl : ℕ) (nonce : Text)
    → (now + ttl) / second ≡ now / second
    → well_formed (claims_of c view context now ttl nonce) ≡ false
unfolding well_formed
not-well_formed-subsecond c view context now ttl nonce h = ground arith

-- If the time to live does not reach the next second, the reference that Issue gives has an expiry in
-- the second of its issue, and Verify rejects it as invalid at all times.
pub issue-verify_subsecond :
    (codec : Codec) (enc : Encoding) (s : ReferenceSigner) (now later : ℕ) (bytes : Text)
    (capability c : Capability) (view context ref : Text)
    → IsEncoding codec
    → RoundTrips codec (claims_of c view context now s.ttl (codec.encode bytes))
    → with_computed_schema_digest enc capability ≡ ok c
    → issue codec enc s now (some bytes) capability view context ≡ ok ref
    → (now + s.ttl) / second ≡ now / second
    → verify codec s later ref ≡ err invalid_reference
issue-verify_subsecond codec enc s now later bytes capability c view context ref b64 json digest
      issued short =
    let (c', payload, digest', v, x, marshalled, made) =
      issue-parts codec enc s now bytes capability view context issued in
    let same : c' ≡ c = cc in
    rw made (
      verify-malformed codec b64 s later payload _ (json payload (rw same at marshalled))
        (not-well_formed-subsecond c view context now s.ttl (codec.encode bytes) short))
