-- ===== src/Tokio/Decode/Total.antt =====
-- `decode` on every buffer, for a parser that keeps what httparse documents.
use benchmark_reverse_proxie.Common.{
  ℕ, ◌+◌, ◌^◌, ◌<◌, ◌≡◌, ◌≢◌, ◌⊎◌, sym, inl, inr, refl, ap, ◌∙◌, Bool, true, false, ◌&&◌, List, map,
  Option, none, some, arith, length, drop, ◌==◌, if◌then◌else◌,
}
use benchmark_reverse_proxie.Common.Bytes.{Bytes}
use benchmark_reverse_proxie.Tokio.Decode.{
  Parsed, Status, complete, partial, failed, Crates, Request, Error, only_http11, bad_method,
  bad_request, header_decode, Decoded, ok, err, panicked, decode, head, finish, all_names,
}
use benchmark_reverse_proxie.Tokio.Decode.Complete.{
  Offsets, placed, InBuffer, judge, verdict, decode-verdict, all_values,
}
use benchmark_reverse_proxie.Tokio.Decode.Slices.{text_at, text_field}

-- What `decode` relies on: a complete parse gives a method, a path and a version, at most the
-- sixteen headers that it was given room for, and slices of the bytes that it has read.
pub record IsParser (crates : Crates) : Type 0 where
  pub in_buffer :
      (base : ℕ) (src : Bytes) (amt : ℕ) (p : Parsed)
      → base + length src < 2 ^ 64
      → crates.parse base src ≡ complete amt p
      → (o : Offsets) × (p ≡ placed base o) × InBuffer src amt o

module _ (crates : Crates) (base : ℕ) (src : Bytes) where
  -- The front of the buffer, as long as a complete parse says, is gone.
  abbrev pub Took : Bytes → Type 0
  Took rest =
      (amt : ℕ) × (p : Parsed) × (crates.parse base src ≡ complete amt p)
      × (0 < amt)
      × (rest ≡ drop amt src)

  abbrev pub Leaves : Decoded (Option Request) → Bytes → Type 0
  Leaves (ok none) rest = (crates.parse base src ≡ partial) × (rest ≡ src)
  Leaves (ok (some r)) rest = Took rest
  Leaves (err e) rest = (crates.parse base src ≢ partial) × ((rest ≡ src) ⊎ Took rest)
  Leaves panicked rest = ⊥

  module _ (amt : ℕ) (o : Offsets) (i : InBuffer src amt o)
      (e : crates.parse base src ≡ complete amt (placed base o)) where
    decided : crates.parse base src ≢ partial
    decided more = let never : complete amt (placed base o) ≡ partial = sym e ∙ more in cc

    took : Took (drop amt src)
    took = (amt, placed base o, e, omega (arith, i.path.0), refl)

    judged :
        (values rest : Bool) (r : Request) (x y : Error)
        → Leaves (if values then (if rest then ok (some r) else err x) else err y) (drop amt src)
    judged true true r x y = took
    judged true false r x y = (decided, inr took)
    judged false rest r x y = (decided, inr took)

    admitted :
        (method version : Bool) (j : Decoded (Option Request)) (x y : Error)
        → Leaves j (drop amt src)
        → let answer : Decoded (Option Request) × Bytes =
            if method
            then (if version then (j, drop amt src) else (err x, src))
            else (err y, src) in
          Leaves answer.0 answer.1
    admitted true true j x y h = h
    admitted true false j x y h = (decided, inl refl)
    admitted false version j x y h = (decided, inl refl)

    verdict-Leaves : Leaves (verdict crates src amt o).0 (verdict crates src amt o).1
    verdict-Leaves =
        let headers : List (Bytes × Bytes) = map (text_field src) o.headers in
        admitted (crates.is_method o.method) (o.version == 1) (judge crates src o) only_http11
          bad_method
          (judged (all_values crates headers)
            (crates.is_uri (text_at src o.path) && all_names crates headers)
            (record { method = o.method; uri = text_at src o.path; headers = headers }) bad_request
            header_decode)

  abbrev Answers : Decoded (Option Request) × Bytes → Type 0
  Answers a = Leaves a.0 a.1

  decode-Leaves_of :
      (s : Status)
      → crates.parse base src ≡ s
      → IsParser crates
      → base + length src < 2 ^ 64
      → Answers (decode crates base src)
  unfolding decode head finish
  decode-Leaves_of (failed message) e p room = rw e ((λ more. cc), inl refl)
  decode-Leaves_of partial e p room = rw e (e, refl)
  decode-Leaves_of (complete amt parsed) e p room =
      let (o, same, i) = p.in_buffer base src amt parsed room e in
      let e' = e ∙ ap (complete amt) same in
      rw (decode-verdict crates base src room amt o i e') (verdict-Leaves amt o i e')

  -- If httparse keeps its contract, then on any buffer that lies in the address space `decode`
  -- returns, and never panics. It asks for more input exactly where httparse does, and then leaves
  -- the buffer: neither a request nor an error comes of a partial parse. A request comes with its
  -- bytes, at least one, taken off the front; an error leaves the buffer, or takes the bytes of the
  -- request that it refuses.
  pub decode-Leaves :
      IsParser crates
      → base + length src < 2 ^ 64
      → Leaves (decode crates base src).0 (decode crates base src).1
  decode-Leaves p room = decode-Leaves_of (crates.parse base src) refl p room
