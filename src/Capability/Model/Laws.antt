-- ===== src/Capability/Model/Laws.antt =====
-- What WithComputedSchemaDigest of internal/capability/model.go guarantees.
use skillex.Prelude.{
  ◌≡◌, refl, ap, sym, ◌∙◌, false, Text, is_empty, text_eq_refl, ok, >>=-eq-ok, arith,
}
use mathlib.Core.Path.{subst}
use skillex.Capability.Model.{
  Capability, Encoding, compute_schema_digest, validate, with_computed_schema_digest,
}

module _ (enc : Encoding) where
  -- The identity of a capability is complete and its digest is that of its schemas.
  pub record IsIdentified (c : Capability) : Type 0 where
    pub canonical_name : is_empty c.server.identity.canonical_name ≡ false
    pub version : is_empty c.server.version ≡ false
    pub kind : is_empty c.kind ≡ false
    pub name : is_empty c.name ≡ false
    pub digest :
        compute_schema_digest enc c.kind c.name c.input_schema c.output_schema ≡ ok c.schema_digest
    pub schema_digest : is_empty c.schema_digest ≡ false

  compute_schema_digest-ne :
      (kind name input output : Text) {d : Text}
      → compute_schema_digest enc kind name input output ≡ ok d
      → is_empty d ≡ false
  unfolding compute_schema_digest
  compute_schema_digest-ne kind name input output h = ground arith

  validate-IsIdentified :
      (c : Capability) {d : Text}
      → compute_schema_digest enc c.kind c.name c.input_schema c.output_schema ≡ ok d
      → c.schema_digest ≡ d
      → validate enc c ≡ ok tt
      → IsIdentified c
  unfolding validate
  validate-IsIdentified c {d} digest same h = record {
    canonical_name = ground arith;
    version = ground arith;
    kind = ground arith;
    name = ground arith;
    digest = digest ∙ ap ok (sym same);
    schema_digest = ap is_empty same ∙ compute_schema_digest-ne _ _ _ _ digest;
  }

  -- What WithComputedSchemaDigest returns is the capability with its digest recomputed, and it is
  -- complete: it has a server, a version, a kind and a name.
  pub with_computed_schema_digest-IsIdentified :
      (c c' : Capability)
      → with_computed_schema_digest enc c ≡ ok c'
      → (c' ≡ record c { schema_digest = c'.schema_digest }) × IsIdentified c'
  unfolding with_computed_schema_digest
  with_computed_schema_digest-IsIdentified c c' h =
      let (d, digest, h1) =
        >>=-eq-ok (compute_schema_digest enc c.kind c.name c.input_schema c.output_schema) _ h in
      let (u, valid, h2) = >>=-eq-ok (validate enc (record c { schema_digest = d })) _ h1 in
      let e : record c { schema_digest = d } ≡ c' = cc in
      let i = validate-IsIdentified (record c { schema_digest = d }) digest refl valid in
      (
        sym e ∙ ap (λ s. record c { schema_digest = s }) (ap (λ x. x.schema_digest) e),
        subst IsIdentified e i,
      )

  -- Recomputing the digest of a capability whose identity is complete changes nothing.
  pub with_computed_schema_digest-stable :
      (c : Capability) → IsIdentified c → with_computed_schema_digest enc c ≡ ok c
  unfolding with_computed_schema_digest validate
  with_computed_schema_digest-stable c i =
      rw (i.digest, i.canonical_name, i.version, i.kind, i.name, i.schema_digest, text_eq_refl)
