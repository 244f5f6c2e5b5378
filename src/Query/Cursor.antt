-- ===== src/Query/Cursor.antt =====
-- The page cursors of internal/query/query.go. encoding/base64, encoding/json and strconv.Atoi are
-- the fields of `CursorCodec`.
use skillex.Prelude.{ℕ, ◌≡◌, Option, none, some, Text, arith}
use skillex.Capability.Integers.{ℤ, pos, negsuc}

-- discoveryCursor; `int` fields as json.Unmarshal may give them.
pub record RawCursor : Type 0 where
  pub skills : ℤ
  pub capabilities : ℤ

-- A cursor with both fields checked to be non-negative.
pub record DiscoveryCursor : Type 0 where
  pub skills : ℕ
  pub capabilities : ℕ

abbrev pub start : DiscoveryCursor
start = record { skills = 0; capabilities = 0 }

pub record CursorCodec : Type 0 where
  -- base64.RawURLEncoding
  pub encode : Text → Text
  pub decode : Text → Option Text
  -- json.Marshal and json.Unmarshal of discoveryCursor
  pub marshal : DiscoveryCursor → Text
  pub unmarshal : Text → Option RawCursor
  -- strconv.Atoi
  pub atoi : Text → Option ℤ

abbrev pub checked : RawCursor → Option DiscoveryCursor
checked c = both c.skills c.capabilities
  where
    both : ℤ → ℤ → Option DiscoveryCursor
    both (pos s) (pos n) = some (record { skills = s; capabilities = n })
    both (pos s) (negsuc n) = none
    both (negsuc s) n = none

abbrev pub legacy : Option ℤ → DiscoveryCursor
legacy none = start
legacy (some (negsuc n)) = start
legacy (some (pos n)) = record { skills = n; capabilities = 0 }

module _ (codec : CursorCodec) where
  -- encodeCursor
  unfoldable pub encode_cursor : DiscoveryCursor → Text
  encode_cursor c = codec.encode (codec.marshal c)

  decode_bytes : Text → DiscoveryCursor
  decode_bytes b = elim (codec.unmarshal b) [
    | none ↦ legacy (codec.atoi b)
    | some raw ↦ elim (checked raw) [ some c ↦ c | none ↦ legacy (codec.atoi b) ]
  ]

  -- decodeCursor
  unfoldable pub decode_cursor : Text → DiscoveryCursor
  unfolding decode_bytes
  decode_cursor cursor = elim (codec.decode cursor) [ none ↦ start | some b ↦ decode_bytes b ]

  -- A cursor that was given out is read back, where the encodings round-trip.
  pub decode_cursor-encode_cursor :
      (c : DiscoveryCursor)
      → codec.decode (codec.encode (codec.marshal c)) ≡ some (codec.marshal c)
      → codec.unmarshal (codec.marshal c)
        ≡ some (record { skills = pos c.skills; capabilities = pos c.capabilities })
      → decode_cursor (encode_cursor c) ≡ c
  unfolding decode_cursor encode_cursor
  decode_cursor-encode_cursor c b64 json = ground arith
