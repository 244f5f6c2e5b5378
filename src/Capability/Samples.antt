-- ===== src/Capability/Samples.antt =====
-- A capability, an encoding and a codec on which the theorems about internal/capability apply.
use skillex.Prelude.{
  ℕ, ◌+◌, ◌-◌, ◌*◌, ◌≡◌, refl, ap, false, none, some, [], ◌∷◌, Text, codes, is_empty, ltb, any,
  if◌then◌else◌, arith,
}
use skillex.Capability.Kind
use skillex.Capability.Availability
use skillex.Capability.Model.{Capability, Encoding}
use skillex.Capability.Reference.{Codec, ReferenceClaims, ReferenceSigner, dot, second, claims_of}
use skillex.Capability.Reference.Laws.{IsEncoding, Lacks}

abbrev pub plain : Encoding
plain = record {
  Json = Text;
  decode = λ t. some (t, []);
  at_eof = λ t. is_empty t;
  marshal = λ t. some t;
  marshal_payload = λ kind name input output. some name;
  sha256_hex = λ t. t;
}

abbrev pub sample : Capability
sample = record {
  server = record {
    identity = record { canonical_name = codes "s"; publisher = [] };
    version = codes "1";
    package_digest = [];
    status = [];
  };
  kind = Kind.tool;
  name = codes "t";
  title = [];
  description = [];
  input_schema = [];
  output_schema = [];
  schema_digest = codes "sha256:t";
  availability = Availability.ready;
  routing_scope = [];
  auth_profile = [];
}

abbrev pub signer : ReferenceSigner
signer = record { key = codes "0123456789abcdef0123456789abcdef"; ttl = 60 * second }

-- The bytes moved above the dot.
abbrev pub shift : Text → Text
shift [] = []
shift (c ∷ s) = (c + 47) ∷ shift s

abbrev pub unshift : Text → Text
unshift [] = []
unshift (c ∷ s) = (c - 47) ∷ unshift s

unshift-shift : (s : Text) → unshift (shift s) ≡ s
unshift-shift [] = refl
unshift-shift (c ∷ s) = ground (arith, unshift-shift s)

shift-Lacks : (s : Text) → Lacks dot (shift s)
shift-Lacks [] = tt
shift-Lacks (c ∷ s) = (omega arith, shift-Lacks s)

shift-ne : (s : Text) → is_empty s ≡ false → is_empty (shift s) ≡ false
shift-ne [] h = h
shift-ne (c ∷ s) h = refl

abbrev pub issued_at : ℕ
issued_at = 100 * second

abbrev pub sample_claims : ReferenceClaims
sample_claims = claims_of sample (codes "v") (codes "x") issued_at (60 * second) (shift (codes "n"))

-- A codec for these claims alone.
abbrev pub codec_for : ReferenceClaims → Codec
codec_for known = record {
  encode = shift;
  decode = λ t. if any (λ c. ltb c 47) t then none else some (unshift t);
  marshal = λ claims. some (codes "claims");
  unmarshal = λ t. some known;
  hmac = λ key payload. codes "mac";
}

none_below : (s : Text) → any (λ c. ltb c 47) (shift s) ≡ false
none_below [] = refl
none_below (c ∷ s) = ground (arith, none_below s)

pub codec_for-IsEncoding : (known : ReferenceClaims) → IsEncoding (codec_for known)
codec_for-IsEncoding known = record {
  decode-encode = λ s. rw (none_below s) (ap some (unshift-shift s));
  encode-ne = shift-ne;
  encode-Lacks_dot = shift-Lacks;
}

abbrev pub shifted : Codec
shifted = codec_for sample_claims

pub shifted-IsEncoding : IsEncoding shifted
shifted-IsEncoding = codec_for-IsEncoding sample_claims

-- A signer whose references live for a nanosecond.
abbrev pub brief : ReferenceSigner
brief = record { key = signer.key; ttl = 1 }

abbrev pub brief_claims : ReferenceClaims
brief_claims = claims_of sample (codes "v") (codes "x") issued_at 1 (shift (codes "n"))

abbrev pub brief_codec : Codec
brief_codec = codec_for brief_claims
