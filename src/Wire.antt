-- ===== src/Wire.antt =====
-- internal/protow/wire.go: the Encoder and the Decoder of the gRPC messages. The package
-- google.golang.org/protobuf/encoding/protowire, which writes and reads the single values, is the
-- parameter `Protowire`; its laws are that Append adds to the end of its buffer, and that Consume reads
-- back what Append wrote and returns the number of bytes. A Go string is its bytes, an integer is its
-- 64-bit pattern, and a float the bits that the package math gives for it.
pub mod Fields
pub mod Termination
pub mod Writing
pub mod Calls
pub mod Taken
pub mod Leb128
pub mod Messages
use kiri_gcp.Prelude.{
  ℕ, zero, suc, ◌+◌, ◌-◌, ◌*◌, ◌^◌, ◌<◌, ◌≤◌, ◌≡◌, Bool, true, false, Option, none, some, List, [],
  ◌∷◌, ◌++◌, leb, ltb, if◌then◌else◌, length, drop,
}
use kiri_gcp.Text.{Text}

-- protowire.Type
pub data WireType : Type 0 where
  varint_type fixed32_type fixed64_type bytes_type start_group_type end_group_type : WireType

-- `none` is a negative length, an error; the last part of a result is the number of bytes read.
pub record Protowire : Type 0 where
  pub append_tag : Text → ℕ → WireType → Text
  pub append_varint : Text → ℕ → Text
  pub append_fixed32 : Text → ℕ → Text
  pub append_fixed64 : Text → ℕ → Text
  pub append_bytes : Text → Text → Text
  pub consume_tag : Text → Option (ℕ × WireType × ℕ)
  pub consume_varint : Text → Option (ℕ × ℕ)
  pub consume_fixed32 : Text → Option (ℕ × ℕ)
  pub consume_fixed64 : Text → Option (ℕ × ℕ)
  pub consume_bytes : Text → Option (Text × ℕ)

-- The documented behaviour of the package. A field number is from 1 to 2^29 - 1.
pub record IsProtowire (pw : Protowire) : Type 0 where
  pub tag_appends :
      (b : Text) (num : ℕ) (t : WireType) → pw.append_tag b num t ≡ b ++ pw.append_tag [] num t
  pub varint_appends : (b : Text) (v : ℕ) → pw.append_varint b v ≡ b ++ pw.append_varint [] v
  pub bytes_appends : (b v : Text) → pw.append_bytes b v ≡ b ++ pw.append_bytes [] v
  pub tag_consumed :
      (num : ℕ) (t : WireType) (rest : Text)
      → 1 ≤ num
      → num < 2 ^ 29
      → pw.consume_tag (pw.append_tag [] num t ++ rest)
        ≡ some (num, t, length (pw.append_tag [] num t))
  pub tag_size : (b : Text) (num n : ℕ) (t : WireType) → pw.consume_tag b ≡ some (num, t, n) → 0 < n
  pub varint_consumed :
      (v : ℕ) (rest : Text)
      → v < 2 ^ 64
      → pw.consume_varint (pw.append_varint [] v ++ rest) ≡ some (v, length (pw.append_varint [] v))
  pub fixed32_appends : (b : Text) (v : ℕ) → pw.append_fixed32 b v ≡ b ++ pw.append_fixed32 [] v
  pub fixed64_appends : (b : Text) (v : ℕ) → pw.append_fixed64 b v ≡ b ++ pw.append_fixed64 [] v
  pub fixed32_consumed :
      (v : ℕ) (rest : Text)
      → v < 2 ^ 32
      → pw.consume_fixed32 (pw.append_fixed32 [] v ++ rest)
        ≡ some (v, length (pw.append_fixed32 [] v))
  pub fixed64_consumed :
      (v : ℕ) (rest : Text)
      → v < 2 ^ 64
      → pw.consume_fixed64 (pw.append_fixed64 [] v ++ rest)
        ≡ some (v, length (pw.append_fixed64 [] v))
  pub bytes_consumed :
      (v rest : Text)
      → length v < 2 ^ 63
      → pw.consume_bytes (pw.append_bytes [] v ++ rest) ≡ some (v, length (pw.append_bytes [] v))

pub record Encoder : Type 0 where
  pub buf : Text

pub record Decoder : Type 0 where
  pub buf : Text
  pub pos : ℕ

-- What Next returns where ok is true.
pub record FieldValue : Type 0 where
  pub num : ℕ
  pub typ : WireType
  pub val : Text

unfoldable pub new_encoder : Encoder
new_encoder = record { buf = [] }

unfoldable pub new_decoder : Text → Decoder
new_decoder buf = record { buf = buf; pos = 0 }

module _ (pw : Protowire) where
  unfoldable pub uint64_field : ℕ → ℕ → Encoder → Encoder
  uint64_field num v e = record { buf = pw.append_varint (pw.append_tag e.buf num varint_type) v }

  -- Int64: uint64(v) keeps the bit pattern.
  unfoldable pub int64_field : ℕ → ℕ → Encoder → Encoder
  int64_field num v e = record { buf = pw.append_varint (pw.append_tag e.buf num varint_type) v }

  -- Int32: int64(v) extends the sign of the 32-bit pattern.
  unfoldable pub int32_field : ℕ → ℕ → Encoder → Encoder
  unfolding int64_field
  int32_field num v e = int64_field num (if ltb v (2 ^ 31) then v else v + (2 ^ 64 - 2 ^ 32)) e

  unfoldable pub bool_field : ℕ → Bool → Encoder → Encoder
  bool_field num v e =
      let tagged = pw.append_tag e.buf num varint_type in
      record { buf = if v then pw.append_varint tagged 1 else pw.append_varint tagged 0 }

  unfoldable pub string_field : ℕ → Text → Encoder → Encoder
  string_field num v e = record { buf = pw.append_bytes (pw.append_tag e.buf num bytes_type) v }

  unfoldable pub bytes_field : ℕ → Text → Encoder → Encoder
  bytes_field num v e = record { buf = pw.append_bytes (pw.append_tag e.buf num bytes_type) v }

  unfoldable pub float64_field : ℕ → ℕ → Encoder → Encoder
  float64_field num bits e = record {
    buf = pw.append_fixed64 (pw.append_tag e.buf num fixed64_type) bits;
  }

  unfoldable pub float32_field : ℕ → ℕ → Encoder → Encoder
  float32_field num bits e = record {
    buf = pw.append_fixed32 (pw.append_tag e.buf num fixed32_type) bits;
  }

  unfoldable pub append_message : ℕ → Text → Encoder → Encoder
  append_message num raw e = record {
    buf = pw.append_bytes (pw.append_tag e.buf num bytes_type) raw;
  }

  unfoldable pub map_entry : ℕ → Text → Text → Encoder → Encoder
  unfolding append_message string_field new_encoder
  map_entry num key value e =
      append_message num (string_field 2 value (string_field 1 key new_encoder)).buf e

  unfoldable pub repeated_string : ℕ → List Text → Encoder → Encoder
  unfolding string_field
  repeated_string num [] e = e
  repeated_string num (v ∷ vs) e = repeated_string num vs (string_field num v e)

  abbrev rest_of : Decoder → Text
  rest_of d = drop d.pos d.buf

  abbrev advance : ℕ → Decoder → Decoder
  advance n d = record d { pos = d.pos + n }

  -- A value was read, or its length was negative.
  number_value : ℕ → WireType → (ℕ → Text) → Option (ℕ × ℕ) → Decoder → Option FieldValue × Decoder
  number_value num typ print none d = (none, d)
  number_value num typ print (some (v, n)) d =
      (some (record { num = num; typ = typ; val = print v }), advance n d)

  bytes_value : ℕ → Option (Text × ℕ) → Decoder → Option FieldValue × Decoder
  bytes_value num none d = (none, d)
  bytes_value num (some (v, n)) d =
      (some (record { num = num; typ = bytes_type; val = v }), advance n d)

  -- The switch of Next, behind the tag.
  next_value : ℕ → WireType → Decoder → Option FieldValue × Decoder
  unfolding number_value bytes_value
  next_value num varint_type d =
      number_value num varint_type (pw.append_varint []) (pw.consume_varint (rest_of d)) d
  next_value num fixed64_type d =
      number_value num fixed64_type (pw.append_fixed64 []) (pw.consume_fixed64 (rest_of d)) d
  next_value num fixed32_type d =
      number_value num fixed32_type (pw.append_fixed32 []) (pw.consume_fixed32 (rest_of d)) d
  next_value num bytes_type d = bytes_value num (pw.consume_bytes (rest_of d)) d
  next_value num start_group_type d = (none, d)
  next_value num end_group_type d = (none, d)

  next_tagged : Option (ℕ × WireType × ℕ) → Decoder → Option FieldValue × Decoder
  unfolding next_value
  next_tagged none d = (none, d)
  next_tagged (some (num, typ, n)) d = next_value num typ (advance n d)

  unfoldable pub next : Decoder → Option FieldValue × Decoder
  unfolding next_tagged
  next d =
      let tagged = next_tagged (pw.consume_tag (rest_of d)) d in
      if leb (length d.buf) d.pos then (none, d) else tagged

  -- for { …, ok := d.Next(); if !ok { break }; s = step(s, …) }, on fuel.
  pub for_each : {S : Type 0} → (S → FieldValue → S) → ℕ → S → Decoder → S
  for_each step zero s d = s
  for_each step (suc fuel) s d = elim (next d).0 [
    | none ↦ s
    | some f ↦ for_each step fuel (step s f) (next d).1
  ]

  -- A message has at most as many fields as bytes, and one more round ends the loop.
  unfoldable pub decode : {S : Type 0} → (S → FieldValue → S) → S → Text → S
  unfolding for_each new_decoder
  decode step s raw = for_each step (suc (length raw)) s (new_decoder raw)
