-- ===== src/Capability/Reference/Laws.antt =====
-- What Verify of internal/capability/ref.go accepts, and that it accepts what Issue gives.
use skillex.Prelude.{
  ℕ, ◌≡◌, refl, ◌≢◌, ap, ◌∙◌, sym, true, false, none, some, List, [], ◌∷◌, ◌++◌, Text, is_empty,
  text_eq, text_eq_iff, text_eq_refl, has_prefix, trim_prefix, split_on, cons_head, split_on-cons,
  join, length, drop, ok, err, >>=-eq-ok, guard-eq-ok, arith, Bool-cases, Option-cases, inl, inr,
}
use skillex.Errors.{invalid_reference, expired_reference}
use skillex.Capability.Reference.{
  reference_prefix, dot, ReferenceClaims, Codec, ReferenceSigner, is_before, well_formed, sign,
  reference, decode_part, verify_claims, verify_parts, verify,
}

has_prefix-append : (p s : Text) → has_prefix (p ++ s) p ≡ true
unfolding has_prefix
has_prefix-append [] s = refl
has_prefix-append (c ∷ p) s = ground (arith, has_prefix-append p s)

drop-length-append : (p s : Text) → drop (length p) (p ++ s) ≡ s
drop-length-append [] s = refl
drop-length-append (c ∷ p) s = drop-length-append p s

trim_prefix-append : (p s : Text) → trim_prefix (p ++ s) p ≡ s
unfolding trim_prefix
trim_prefix-append p s = rw (has_prefix-append p s) (drop-length-append p s)

-- A text without the byte `c`.
abbrev pub Lacks : ℕ → Text → Type 0
Lacks c [] = Unit
Lacks c (x ∷ s) = (x ≢ c) × Lacks c s

split_on-Lacks : (c : ℕ) (s : Text) → Lacks c s → split_on c s ≡ s ∷ []
unfolding split_on
split_on-Lacks c [] l = refl
split_on-Lacks c (x ∷ s) l = ground (arith, l.0, split_on-Lacks c s l.1)

split_on-append : (c : ℕ) (a b : Text) → Lacks c a → split_on c (a ++ c ∷ b) ≡ a ∷ split_on c b
unfolding split_on
split_on-append c [] b l = ground arith
split_on-append c (x ∷ a) b l = ground (arith, l.0, split_on-append c a b l.1)

-- What encoding/base64 guarantees of RawURLEncoding.
pub record IsEncoding (codec : Codec) : Type 0 where
  pub decode-encode : (s : Text) → codec.decode (codec.encode s) ≡ some s
  pub encode-ne : (s : Text) → is_empty s ≡ false → is_empty (codec.encode s) ≡ false
  pub encode-Lacks_dot : (s : Text) → Lacks dot (codec.encode s)

-- The prefix that Verify wants is there, and what follows it is what Verify splits.
prefix-trim : (p s : Text) → has_prefix s p ≡ true → s ≡ p ++ trim_prefix s p
unfolding has_prefix trim_prefix
prefix-trim [] s h = refl
prefix-trim (c ∷ p) [] h = cc
prefix-trim (c ∷ p) (x ∷ s) h = ground (arith, prefix-trim p s)

join-cons_head :
    (c x : ℕ) (ps : List Text)
    → (p : Text) × (qs : List Text) × (ps ≡ p ∷ qs)
    → join c (cons_head x ps) ≡ x ∷ join c ps
unfolding join
join-cons_head c x ps (p, [], e) = rw e
join-cons_head c x ps (p, q ∷ qs, e) = rw e

join-nil_head :
    (c : ℕ) (ps : List Text)
    → (p : Text) × (qs : List Text) × (ps ≡ p ∷ qs)
    → join c ([] ∷ ps) ≡ c ∷ join c ps
unfolding join
join-nil_head c ps (p, qs, e) = rw e

-- Joining what Split gives back with the separator is the text.
join-split_on : (c : ℕ) (s : Text) → join c (split_on c s) ≡ s
unfolding split_on
join-split_on c [] = unfold join in refl
join-split_on c (x ∷ s) =
    let parts = split_on-cons c s in
    ground (
      arith,
      join-nil_head c (split_on c s) parts,
      join-cons_head c x (split_on c s) parts,
      join-split_on c s,
    )

module _ (codec : Codec) where
  -- A part that is accepted is the encoding of the bytes that it stands for.
  decode_part-canonical :
      (part bytes : Text) → decode_part codec part ≡ ok bytes → codec.encode bytes ≡ part
  unfolding decode_part
  decode_part-canonical part bytes h = elim (Option-cases (codec.decode part)) [
    | inl e ↦ ground arith
    | inr (b, e) ↦ ground (arith, text_eq_iff (codec.encode b) part)
  ]

  decode_part-encode :
      (enc : IsEncoding codec) (bytes : Text) → decode_part codec (codec.encode bytes) ≡ ok bytes
  unfolding decode_part
  decode_part-encode enc bytes = rw (enc.decode-encode bytes, decode_part) (rw text_eq_refl)

  -- What a reference with this payload says at this time.
  abbrev pub Grants : Text → ℕ → ReferenceClaims → Type 0
  Grants payload now claims =
      (codec.unmarshal payload ≡ some claims)
      × (well_formed claims ≡ true)
      × (is_before now claims.expires_at ≡ true)

  verify_claims_sound :
      (now : ℕ) (found claims : ReferenceClaims)
      → verify_claims codec now found ≡ ok claims
      → (found ≡ claims) × (well_formed claims ≡ true) × (is_before now claims.expires_at ≡ true)
  unfolding verify_claims
  verify_claims_sound now found claims h =
      let (formed, k) = guard-eq-ok (well_formed found) invalid_reference _ h in
      let (fresh, same) = guard-eq-ok (is_before now found.expires_at) expired_reference _ k in
      let e : found ≡ claims = cc in (e, rw e at formed, rw e at fresh)

  unmarshal_sound :
      (now : ℕ) (payload : Text) (claims : ReferenceClaims)
      → (elim (codec.unmarshal payload) [
        | none ↦ err invalid_reference
        | some c ↦ verify_claims codec now c
      ])
        ≡ ok claims
      → Grants payload now claims
  unmarshal_sound now payload claims h = elim (Option-cases (codec.unmarshal payload)) [
    | inl e ↦ ground arith
    | inr (found, e) ↦
        let k : verify_claims codec now found ≡ ok claims = ground arith in
        let (same, formed, fresh) = verify_claims_sound now found claims k in
        (e ∙ ap some same, formed, fresh)
  ]

  verify_parts_sound :
      (s : ReferenceSigner) (now : ℕ) (parts : List Text) (claims : ReferenceClaims)
      → verify_parts codec s now parts ≡ ok claims
      → (payload : Text) × (parts ≡ codec.encode payload ∷ codec.encode (sign codec s payload) ∷ [])
        × Grants payload now claims
  unfolding verify_parts
  verify_parts_sound s now [] claims h = cc
  verify_parts_sound s now (a ∷ []) claims h = cc
  verify_parts_sound s now (a ∷ b ∷ c ∷ parts) claims h = cc
  verify_parts_sound s now (a ∷ b ∷ []) claims h =
      let (payload, first, k) = >>=-eq-ok (decode_part codec a) _ h in
      let (mac, last, l) = >>=-eq-ok (decode_part codec b) _ k in
      let (same, m) = guard-eq-ok (text_eq mac (sign codec s payload)) invalid_reference _ l in
      let signed : mac ≡ sign codec s payload = (text_eq_iff mac (sign codec s payload)).0 same in
      (
        payload,
        cc (decode_part-canonical a payload first, decode_part-canonical b mac last, signed),
        unmarshal_sound now payload claims m,
      )

  join-parts :
      (s : ReferenceSigner) (payload : Text)
      → reference_prefix
          ++ join dot (codec.encode payload ∷ codec.encode (sign codec s payload) ∷ [])
        ≡ reference codec s payload
  unfolding join reference
  join-parts s payload = refl

  -- A text that Verify accepts is the reference that the signer makes of some payload, bit for bit:
  -- no other spelling of it is accepted. The payload holds the claims returned, they are complete and
  -- the time is before their expiry.
  pub verify_sound :
      (s : ReferenceSigner) (now : ℕ) (ref : Text) (claims : ReferenceClaims)
      → verify codec s now ref ≡ ok claims
      → (payload : Text) × (ref ≡ reference codec s payload) × Grants payload now claims
  unfolding verify
  verify_sound s now ref claims h = elim (Bool-cases (has_prefix ref reference_prefix)) [
    | inr no_prefix ↦ ground arith
    | inl prefixed ↦
        let rest = trim_prefix ref reference_prefix in
        let k : verify_parts codec s now (split_on dot rest) ≡ ok claims = ground arith in
        let (payload, parts, grants) = verify_parts_sound s now (split_on dot rest) claims k in
        (
          payload,
          prefix-trim reference_prefix ref prefixed
              ∙ ap (λ t. reference_prefix ++ t) (sym (join-split_on dot rest) ∙ ap (join dot) parts)
              ∙ join-parts s payload,
          grants,
        )
  ]

  verify_claims_complete :
      (now : ℕ) (payload : Text) (claims : ReferenceClaims)
      → Grants payload now claims
      → verify_claims codec now claims ≡ ok claims
  unfolding verify_claims
  verify_claims_complete now payload claims g = rw (g.1, g.2)

  verify_parts_complete :
      (enc : IsEncoding codec) (s : ReferenceSigner) (now : ℕ) (payload : Text)
      (claims : ReferenceClaims)
      → Grants payload now claims
      → verify_parts codec s now (codec.encode payload ∷ codec.encode (sign codec s payload) ∷ [])
        ≡ ok claims
  unfolding verify_parts
  verify_parts_complete enc s now payload claims g =
      rw
        (
          decode_part-encode enc payload,
          decode_part-encode enc (sign codec s payload),
          text_eq_refl,
          g.0,
        )
        (verify_claims_complete now payload claims g)

  split-reference :
      (enc : IsEncoding codec) (s : ReferenceSigner) (payload : Text)
      → split_on dot (codec.encode payload ++ dot ∷ codec.encode (sign codec s payload))
        ≡ codec.encode payload ∷ codec.encode (sign codec s payload) ∷ []
  split-reference enc s payload =
      split_on-append dot (codec.encode payload) _ (enc.encode-Lacks_dot payload)
      ∙ ap (λ t. codec.encode payload ∷ t)
          (split_on-Lacks dot (codec.encode (sign codec s payload)) (enc.encode-Lacks_dot _))

  -- Verify accepts the reference that its signer makes of a payload with complete claims that have
  -- not expired, and returns those claims.
  pub verify-reference :
      (enc : IsEncoding codec) (s : ReferenceSigner) (now : ℕ) (payload : Text)
      (claims : ReferenceClaims)
      → Grants payload now claims
      → verify codec s now (reference codec s payload) ≡ ok claims
  unfolding verify reference
  verify-reference enc s now payload claims g =
      rw
        (
          has_prefix-append reference_prefix _,
          trim_prefix-append reference_prefix _,
          split-reference enc s payload,
        )
        (verify_parts_complete enc s now payload claims g)

  verify_claims-malformed :
      (now : ℕ) (claims : ReferenceClaims)
      → well_formed claims ≡ false
      → verify_claims codec now claims ≡ err invalid_reference
  unfolding verify_claims
  verify_claims-malformed now claims h = rw h

  verify_parts-malformed :
      (enc : IsEncoding codec) (s : ReferenceSigner) (now : ℕ) (payload : Text)
      (claims : ReferenceClaims)
      → codec.unmarshal payload ≡ some claims
      → well_formed claims ≡ false
      → verify_parts codec s now (codec.encode payload ∷ codec.encode (sign codec s payload) ∷ [])
        ≡ err invalid_reference
  unfolding verify_parts
  verify_parts-malformed enc s now payload claims u h =
      rw
        (
          decode_part-encode enc payload,
          decode_part-encode enc (sign codec s payload),
          text_eq_refl,
          u,
        )
        (verify_claims-malformed now claims h)

  -- A signed payload whose claims are incomplete is an invalid reference.
  pub verify-malformed :
      (enc : IsEncoding codec) (s : ReferenceSigner) (now : ℕ) (payload : Text)
      (claims : ReferenceClaims)
      → codec.unmarshal payload ≡ some claims
      → well_formed claims ≡ false
      → verify codec s now (reference codec s payload) ≡ err invalid_reference
  unfolding verify reference
  verify-malformed enc s now payload claims u h =
      rw
        (
          has_prefix-append reference_prefix _,
          trim_prefix-append reference_prefix _,
          split-reference enc s payload,
        )
        (verify_parts-malformed enc s now payload claims u h)
