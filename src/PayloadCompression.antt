-- ===== src/PayloadCompression.antt =====
-- The compression of payloads of listener/src/utils/payload-compression.ts. gzip with base64, the
-- length in UTF-8 and the texts of values are those of node and the JavaScript engine; the log and its
-- metrics are left out.
pub mod RoundTrip
mod Tests
use Prim.Native.String.{◌++◌ as str_append}
use package.text.Mathlib.Text.{starts_with}
use notify_chain.Prelude.{
  ℕ, zero, suc, String, Bool, true, false, not, Option, none, some, if◌then◌else◌, ltb,
}

-- The outside operations, on values that are no text.
pub record Codec (V : Type 0) : Type 0 where
  -- `gzipSync` in base64, and `gunzipSync` of base64 in UTF-8; `none` is an exception.
  pub gzip_base64 : String → Option String
  pub gunzip_base64 : String → Option String
  pub byte_length : String → ℕ
  -- `JSON.stringify`, where `none` is undefined, and `String(v)`.
  pub stringify : V → Option String
  pub to_text : V → String

-- A payload: a text; null, undefined, an object, a number or a Boolean; or another value.
pub data Payload (V : Type 0) : Type 0 where
  text : String → Payload V
  json : V → Payload V
  opaque : V → Payload V

abbrev pub compression_prefix : String
compression_prefix = "__COMPRESSED__:"

abbrev pub default_compression_threshold_bytes : ℕ
default_compression_threshold_bytes = 10240

abbrev pub number_or : Option ℕ → ℕ → ℕ
number_or none d = d
number_or (some n) d = n

-- The text without its first characters; with 15, `slice(COMPRESSION_PREFIX.length)` of a text that
-- starts with the prefix.
abbrev pub skip_chars : ℕ → String → String
skip_chars zero s = s
skip_chars (suc n) String.[] = ""
skip_chars (suc n) (String.◌∷◌ c s) = skip_chars n s

abbrev text_or : Option String → String → String
text_or none s = s
text_or (some t) s = t

module _ {V : Type 0} (codec : Codec V) where
  -- `toSerializableString`; `none` is undefined.
  unfoldable pub to_serializable_string : Payload V → Option String
  to_serializable_string (text s) = some s
  to_serializable_string (json v) = codec.stringify v
  to_serializable_string (opaque v) = some (codec.to_text v)

  abbrev prefixed_or : Option String → String → String
  prefixed_or none s = s
  prefixed_or (some z) s = str_append compression_prefix z

  -- `compressPayload` of the serialized text
  unfoldable pub compress_text : Option ℕ → String → String
  compress_text threshold_bytes s =
      if ltb (codec.byte_length s) (number_or threshold_bytes default_compression_threshold_bytes)
      then s
      else prefixed_or (codec.gzip_base64 s) s

  abbrev compress_found : Option ℕ → Option String → Option String
  compress_found threshold_bytes none = none
  compress_found threshold_bytes (some s) = some (compress_text threshold_bytes s)

  -- `compressPayload`; `none` is the `TypeError` for undefined.
  unfoldable pub compress_payload : Option ℕ → Payload V → Option String
  unfolding to_serializable_string compress_text
  compress_payload threshold_bytes payload =
      compress_found threshold_bytes (to_serializable_string payload)

  -- `decompressPayload` of a text
  unfoldable pub decompress_text : String → String
  decompress_text s =
      if not (starts_with s compression_prefix)
      then s
      else text_or (codec.gunzip_base64 (skip_chars 15 s)) s

  -- `decompressPayload`
  unfoldable pub decompress_payload : Payload V → Option String
  unfolding to_serializable_string decompress_text
  decompress_payload (text s) = some (decompress_text s)
  decompress_payload (json v) = to_serializable_string (json v)
  decompress_payload (opaque v) = to_serializable_string (opaque v)
