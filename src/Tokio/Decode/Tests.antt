-- ===== src/Tokio/Decode/Tests.antt =====
-- Two requests in one buffer.
use benchmark_reverse_proxie.Common.{◌≡◌, refl, [], ◌∷◌, ◌++◌, some, arith}
use benchmark_reverse_proxie.Common.Bytes.{bytes}
use benchmark_reverse_proxie.Tokio.Decode.{ok, toslice, header_slices, slice, decode, all_names}
use benchmark_reverse_proxie.Tokio.Decode.Complete.{decode-verdict}
use benchmark_reverse_proxie.Tokio.Decode.Total.{Leaves, decode-Leaves}
use benchmark_reverse_proxie.Tokio.Decode.Sample.{
  get_root, offsets, crates, offsets-InBuffer, crates-IsParser,
}

-- The request is decoded, and the next one stays.
two_requests : decode crates 4096 (get_root ++ bytes "GET") ≡ (
  ok (
      some (record {
        method = bytes "GET";
        uri = bytes "/";
        headers = (bytes "Host", bytes "a") ∷ [];
      })),
  bytes "GET",
)
unfolding decode toslice header_slices slice
two_requests = refl

decode-verdict_example : decode crates 4096 (get_root ++ bytes "GET") ≡ (
  ok (
      some (record {
        method = bytes "GET";
        uri = bytes "/";
        headers = (bytes "Host", bytes "a") ∷ [];
      })),
  bytes "GET",
)
unfolding all_names
decode-verdict_example =
    decode-verdict crates 4096 (get_root ++ bytes "GET") (omega arith) 27 offsets
      (offsets-InBuffer (get_root ++ bytes "GET") (omega arith)) refl

decode-Leaves_example :
    Leaves crates 4096 get_root (decode crates 4096 get_root).0 (decode crates 4096 get_root).1
decode-Leaves_example = decode-Leaves crates 4096 get_root crates-IsParser (omega arith)
