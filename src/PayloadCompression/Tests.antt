-- ===== src/PayloadCompression/Tests.antt =====
-- Payloads of listener/src/utils/payload-compression.ts with a stand-in for gzip, and its round trip at
-- one of them.
use notify_chain.Prelude.{◌≡◌, refl, ℕ, String, none, some, arith}
use notify_chain.PayloadCompression.{Codec, text, compress_payload, decompress_payload}
use notify_chain.PayloadCompression.RoundTrip.{decompress_payload-compress_payload}

program : Unit {0}
unfolding compress_payload decompress_payload
program = tt

-- A gzip that leaves texts as they are, with values that are numbers.
abbrev identity_codec : Codec ℕ
identity_codec = record {
  gzip_base64 = λ s. some s;
  gunzip_base64 = λ s. some s;
  byte_length = λ s. 20000;
  stringify = λ n. some "0";
  to_text = λ n. "0";
}

identity_codec_inverts :
    (s z : String) → identity_codec.gzip_base64 s ≡ some z → identity_codec.gunzip_base64 z ≡ some s
identity_codec_inverts s z h = ground (arith, h)

hello_compressed : compress_payload identity_codec none (text "hello") ≡ some "__COMPRESSED__:hello"
unfolding program
hello_compressed = refl

decompress_payload-compress_payload_example :
    decompress_payload identity_codec (text "__COMPRESSED__:hello") ≡ some "hello"
unfolding program
decompress_payload-compress_payload_example =
    decompress_payload-compress_payload identity_codec identity_codec_inverts none (text "hello")
      "hello" "__COMPRESSED__:hello" refl refl hello_compressed

-- A short payload that starts with the prefix is not compressed, but is decompressed.
prefixed_changes :
    decompress_payload (record identity_codec { byte_length = λ s. 16 }) (text "__COMPRESSED__:x")
    ≡ some "x"
unfolding program
prefixed_changes = refl
