-- ===== src/Runtime/Instance.antt =====
-- The routines of streamvbytedelta.c fill the interface, the decoder with its vector half.
use csearch.Common.{ℕ, ◌%◌, ◌^◌, ◌<◌, arith}
use csearch.Runtime.Defs.{Runtime}
use csearch.StreamVByte
use csearch.StreamVByte.Avx.{streamvbyte_delta_decode}
use csearch.StreamVByte.Avx.Decode.{avx_decode-encode}
use csearch.StreamVByte.Bounds.{delta_encode-IsByte}

pub junk-byte : (junk : ℕ) → junk % 2 ^ 8 < 2 ^ 8
junk-byte junk = omega arith

abbrev pub stream_vbyte : ℕ → Runtime
stream_vbyte junk = record {
  delta_encode = StreamVByte.delta_encode;
  delta_decode = streamvbyte_delta_decode;
  decode-encode = avx_decode-encode;
  delta_encode-IsByte = delta_encode-IsByte;
  junk = junk % 2 ^ 8;
  junk-IsByte = junk-byte junk;
}
