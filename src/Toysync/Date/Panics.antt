-- ===== src/Toysync/Date/Panics.antt =====
-- What `fmt` does where nothing is assumed of httpdate: bounds on every path, and panics.
use benchmark_reverse_proxie.Common.{
  ℕ, ◌+◌, ◌<◌, ◌≡◌, ◌≢◌, ◌∙◌, inl, inr, false, List, [], ◌∷◌, flatten, Option, some, arith, length,
  leb→le, ==_ne, Bool-cases, Option-cases, length-append, leb,
}
use benchmark_reverse_proxie.Common.Bytes.{Bytes}
use benchmark_reverse_proxie.Common.Bytes.Utf8.{is_utf8}
use benchmark_reverse_proxie.Common.Exec.{done, panicked}
use benchmark_reverse_proxie.Toysync.Date.{
  SystemTime, unix_secs, LastRenderedNow, last, write_str, write_pieces, buffer, update, fmt,
}
use benchmark_reverse_proxie.Toysync.Date.Buffer.{IsValid, write_str-Wrote, length-splice}

write_str-IsValid : (s : Bytes) (c : LastRenderedNow) → IsValid c → IsValid (write_str s c).1
unfolding write_str
write_str-IsValid s c v = elim (Bool-cases (leb (c.amt + length s) (length c.bytes))) [
  | inl fits ↦
      let room = leb→le _ _ fits in
      rw fits (record {
        size = length-splice c.bytes s c.amt room ∙ v.size;
        within = omega (arith, v.size);
      })
  | inr over ↦ rw over v
]

write_pieces-IsValid :
    (ss : List Bytes) (c : LastRenderedNow) → IsValid c → IsValid (write_pieces ss c).1
unfolding write_pieces
write_pieces-IsValid [] c v = v
write_pieces-IsValid (s ∷ ss) c v =
    let w = write_str-IsValid s c v in ground (arith, write_pieces-IsValid ss (write_str s c).1 w)

buffer-keeps : (c : LastRenderedNow) → (buffer c).1 ≡ c
unfolding buffer
buffer-keeps c = ground arith

write_str_over :
    (s : Bytes) (c : LastRenderedNow)
    → IsValid c
    → leb (c.amt + length s) 128 ≡ false
    → (write_str s c).0 ≡ panicked
unfolding write_str
write_str_over s c v over = rw (v.size, over)

write_pieces_too_long :
    (ss : List Bytes) (c : LastRenderedNow)
    → IsValid c
    → 128 < c.amt + length (flatten ss)
    → (write_pieces ss c).0 ≡ panicked
unfolding write_pieces flatten
write_pieces_too_long [] c v h = absurd (omega (arith, v.within))
write_pieces_too_long (s ∷ ss) c v h = elim (Bool-cases (leb (c.amt + length s) 128)) [
  | inl fits ↦
      let (finished, w) = write_str-Wrote s c v (leb→le _ _ fits) in
      rw finished (
        write_pieces_too_long ss (write_str s c).1 w.valid
          (omega (arith, h, w.amt, length-append s (flatten ss))))
  | inr over ↦ rw (write_str_over s c v over)
]

module _ (http_date : SystemTime → Option (List Bytes)) where
  update-IsValid :
      (now : SystemTime) (n : ℕ) (c : LastRenderedNow)
      → IsValid c
      → IsValid (update http_date now n c).1
  unfolding update
  update-IsValid now n c v =
      let empty : LastRenderedNow = record c { amt = 0; unix_date = n } in
      let ok : IsValid empty = record { size = v.size; within = omega arith } in
      elim (Option-cases (http_date now)) [
        | inl e ↦ rw e ok
        | inr (ss, e) ↦ rw e (write_pieces-IsValid ss empty ok)
      ]

  -- Whatever httpdate writes, and also where a call panics, the array keeps its 128 bytes and `amt`
  -- stays within them.
  pub fmt-IsValid :
      (now : SystemTime) (c : LastRenderedNow) → IsValid c → IsValid (fmt http_date now c).1
  unfolding fmt
  fmt-IsValid now c v = ground (
    arith,
    buffer-keeps c,
    buffer-keeps (update http_date now (unix_secs now) c).1,
    update-IsValid now (unix_secs now) c v,
  )

  -- A thread whose clock stands at or before the epoch's first second writes an empty date, as long
  -- as it has rendered nothing.
  fmt-fresh_epoch :
      (now : SystemTime) → unix_secs now ≡ 0 → fmt http_date now last ≡ (done [], last)
  unfolding fmt buffer is_utf8
  fmt-fresh_epoch now h = rw h

  -- A text that does not fit the array is never cut: the call panics.
  pub fmt-too_long :
      (now : SystemTime) (c : LastRenderedNow) (ss : List Bytes)
      → IsValid c
      → c.unix_date ≢ unix_secs now
      → http_date now ≡ some ss
      → 128 < length (flatten ss)
      → (fmt http_date now c).0 ≡ panicked
  unfolding fmt update
  fmt-too_long now c ss v ne e long =
      let empty : LastRenderedNow = record c { amt = 0; unix_date = unix_secs now } in
      let ok : IsValid empty = record { size = v.size; within = omega arith } in
      rw (==_ne _ _ ne, e, write_pieces_too_long ss empty ok (omega arith))
