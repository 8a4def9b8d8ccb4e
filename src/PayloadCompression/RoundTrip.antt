-- ===== src/PayloadCompression/RoundTrip.antt =====
-- A payload that listener/src/utils/payload-compression.ts compresses and decompresses.
use Prim.Native.String.{◌++◌ as str_append}
use Prim.Native.String.append
use package.text.Mathlib.Text.{starts_with}
use package.text.Mathlib.TextEquality.{starts_with_iff}
use notify_chain.Prelude.{
  ℕ, suc, ◌≡◌, refl, sym, ap, ◌∙◌, inl, inr, String, true, false, Option, some, arith, Option-cases,
}
use notify_chain.PayloadCompression.{
  Codec, Payload, text, compression_prefix, skip_chars, to_serializable_string, compress_text,
  compress_payload, decompress_text, decompress_payload,
}

abbrev char_count : String → ℕ
char_count String.[] = 0
char_count (String.◌∷◌ c s) = suc (char_count s)

skip_chars-append : (p z : String) → skip_chars (char_count p) (str_append p z) ≡ z
skip_chars-append String.[] z = append.nil z
skip_chars-append (String.◌∷◌ c p) z = rw (append.cons c p z) (skip_chars-append p z)

skip_prefix : (z : String) → skip_chars 15 (str_append compression_prefix z) ≡ z
skip_prefix z = skip_chars-append compression_prefix z

starts_with_prefix :
    (z : String) → starts_with (str_append compression_prefix z) compression_prefix ≡ true
starts_with_prefix z =
    (starts_with_iff (str_append compression_prefix z) compression_prefix).1 (z, refl)

module _ {V : Type 0} (codec : Codec V)
    (inverts : (s z : String) → codec.gzip_base64 s ≡ some z → codec.gunzip_base64 z ≡ some s) where
  decompress_text-prefixed :
      (s z : String)
      → codec.gunzip_base64 z ≡ some s
      → decompress_text codec (str_append compression_prefix z) ≡ s
  unfolding decompress_text
  decompress_text-prefixed s z h =
      let opened : codec.gunzip_base64 (skip_chars 15 (str_append compression_prefix z)) ≡ some s =
        ap codec.gunzip_base64 (skip_prefix z) ∙ h in
      ground (arith, opened, starts_with_prefix z)

  decompress_text-plain :
      (s : String) → starts_with s compression_prefix ≡ false → decompress_text codec s ≡ s
  unfolding decompress_text
  decompress_text-plain s plain = ground (arith, plain)

  decompress_text-compress_text :
      (threshold : Option ℕ) (s : String)
      → starts_with s compression_prefix ≡ false
      → decompress_text codec (compress_text codec threshold s) ≡ s
  unfolding compress_text
  decompress_text-compress_text threshold s plain =
      let kept : decompress_text codec s ≡ s = decompress_text-plain s plain in
      elim (Option-cases (codec.gzip_base64 s)) [
        | inl failed ↦ ground (arith, failed, kept)
        | inr (z, zipped) ↦
            ground (arith, zipped, kept, decompress_text-prefixed s z (inverts s z zipped))
      ]

  -- What is compressed, whatever the threshold and also where gzip fails, is decompressed to the
  -- serialized payload, if gunzip inverts gzip and the serialized payload does not start with the prefix.
  pub decompress_payload-compress_payload :
      (threshold : Option ℕ) (payload : Payload V) (s compressed : String)
      → to_serializable_string codec payload ≡ some s
      → starts_with s compression_prefix ≡ false
      → compress_payload codec threshold payload ≡ some compressed
      → decompress_payload codec (text compressed) ≡ some s
  unfolding compress_payload decompress_payload
  decompress_payload-compress_payload threshold payload s compressed serial plain done =
      let same : compress_text codec threshold s ≡ compressed = ground (arith, serial, done) in
      ap some
        (ap (decompress_text codec) (sym same) ∙ decompress_text-compress_text threshold s plain)
