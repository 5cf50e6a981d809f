-- ===== src/Tokio/Decode/Complete.antt =====
-- `decode` without pointers: what it answers on a buffer, and what it takes off it.
use benchmark_reverse_proxie.Common.{
  ℕ, ◌+◌, ◌^◌, ◌≤◌, ◌<◌, ◌≡◌, refl, Bool, true, ◌&&◌, List, [], ◌∷◌, Option, some, arith, length,
  take, drop, map, ◌==◌, le→leb, All, if◌then◌else◌,
}
use benchmark_reverse_proxie.Common.Bytes.{Bytes}
use benchmark_reverse_proxie.Tokio.Decode.{
  Parsed, complete, Crates, Request, bad_method, only_http11, header_decode, bad_request, Decoded,
  ok, err, ◌>>=◌, Head, complete_head, head, fields, all_names, request, finish, decode,
}
use benchmark_reverse_proxie.Tokio.Decode.Slices.{
  Part, text_at, place, range, IsInside, place_field, range_field, text_field, AreInside,
  toslice-place, header_slices-place, slice-range,
}

-- A parsed request by its places in the buffer.
pub record Offsets : Type 0 where
  pub method : Bytes
  pub path : Part
  pub version : ℕ
  pub headers : List (Part × Part)

abbrev pub placed : ℕ → Offsets → Parsed
placed base o = record {
  method = some o.method;
  path = some (place base o.path);
  version = some o.version;
  headers = map (place_field base) o.headers;
}

pub record InBuffer (src : Bytes) (amt : ℕ) (o : Offsets) : Type 0 where
  pub fits : amt ≤ length src
  pub path : IsInside amt o.path
  pub headers : All (AreInside amt) o.headers
  pub few : length o.headers ≤ 16

module _ (crates : Crates) where
  abbrev pub all_values : List (Bytes × Bytes) → Bool
  all_values [] = true
  all_values ((k, v) ∷ hs) = crates.is_value v && all_values hs

  abbrev pub judge : Bytes → Offsets → Decoded (Option Request)
  judge src o =
      let headers : List (Bytes × Bytes) = map (text_field src) o.headers in
      if all_values headers
      then (if crates.is_uri (text_at src o.path) && all_names crates headers
          then ok (some (record { method = o.method; uri = text_at src o.path; headers = headers }))
          else err bad_request)
      else err header_decode

  -- The answer on a complete request, by its texts: a refused method or a version other than 1
  -- leaves the buffer, and all else takes the request off it.
  abbrev pub verdict : Bytes → ℕ → Offsets → Decoded (Option Request) × Bytes
  verdict src amt o =
      if crates.is_method o.method
      then (if o.version == 1 then (judge src o, drop amt src) else (err only_http11, src))
      else (err bad_method, src)

  module _ (base : ℕ) (src : Bytes) (room : base + length src < 2 ^ 64) (amt : ℕ) (o : Offsets)
      (i : InBuffer src amt o) where
    fields-range :
        (hs : List (Part × Part))
        → All (AreInside amt) hs
        → fields crates (take amt src) (map range_field hs) ≡ (
            if all_values (map (text_field src) hs)
            then ok (map (text_field src) hs)
            else err header_decode)
    unfolding fields
    fields-range [] h = refl
    fields-range ((k, v) ∷ hs) h =
        rw
          (
            slice-range base src room amt i.fits v h.0.1,
            slice-range base src room amt i.fits k h.0.0,
            fields-range hs h.1,
          )
          (ground arith)

    abbrev placed_head : Head
    placed_head = record {
      method = o.method;
      path = range o.path;
      amt = amt;
      headers = map range_field o.headers;
    }

    complete_head-placed : complete_head crates base src amt (placed base o) ≡ (
        if crates.is_method o.method
        then (if o.version == 1 then ok placed_head else err only_http11)
        else err bad_method)
    unfolding complete_head
    complete_head-placed =
        rw
          (
            header_slices-place base src room amt i.fits 16 o.headers i.headers i.few,
            toslice-place base src room amt i.fits o.path i.path,
          )
          (ground arith)

    request-placed : (request crates (take amt src) placed_head >>= λ r. ok (some r)) ≡ judge src o
    unfolding request
    request-placed =
        rw (slice-range base src room amt i.fits o.path i.path, fields-range o.headers i.headers)
          (ground arith)

    -- On a complete request that httparse found in the buffer `decode` answers as `verdict` says:
    -- it never panics, it keeps every header, in order, with the bytes that stand in the buffer,
    -- and what follows the request stays in the buffer.
    pub decode-verdict :
        crates.parse base src ≡ complete amt (placed base o)
        → decode crates base src ≡ verdict src amt o
    unfolding decode head finish
    decode-verdict e =
        rw (e, complete_head-placed)
          (ground (arith, request-placed, le→leb amt (length src) i.fits))
