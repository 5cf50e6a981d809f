-- ===== src/Tokio/Decode/Stream.antt =====
-- `decode` on a longer buffer: what it found in the first bytes it finds again, whatever follows
-- them.
use benchmark_reverse_proxie.Common.{
  ℕ, zero, suc, ◌+◌, ◌^◌, ◌≤◌, ◌<◌, ◌≡◌, refl, sym, ap, ◌∙◌, List, [], ◌∷◌, ◌++◌, map, Option, none,
  some, arith, length, take, drop, All, length-append, length-drop, Bool, if◌then◌else◌, ◌==◌, true,
  false,
}
use benchmark_reverse_proxie.Common.Bytes.{Bytes}
use benchmark_reverse_proxie.Tokio.Decode.{
  Parsed, Status, complete, partial, failed, Crates, Request, Error, Decoded, ok, err, panicked,
  decode, head, finish,
}
use benchmark_reverse_proxie.Tokio.Decode.Slices.{Part, text_at, text_field, IsInside, AreInside}
use benchmark_reverse_proxie.Tokio.Decode.Complete.{
  Offsets, placed, InBuffer, verdict, decode-verdict,
}
use benchmark_reverse_proxie.Tokio.Decode.Total.{IsParser}

-- httparse reads from the front and stops at the end of the head: what follows a request, or an
-- error, changes nothing, and neither does the place of the buffer.
pub record IsStable (crates : Crates) : Type 0 where
  pub complete_extends :
      (base : ℕ) (src : Bytes) (amt : ℕ) (p : Parsed)
      → base + length src < 2 ^ 64
      → crates.parse base src ≡ complete amt p
      → (o : Offsets) × (p ≡ placed base o)
        × InBuffer src amt o
        × ((base' : ℕ) (more : Bytes)
            → crates.parse base' (src ++ more) ≡ complete amt (placed base' o))
  pub failed_extends :
      (base : ℕ) (src message : Bytes)
      → crates.parse base src ≡ failed message
      → (base' : ℕ) (more : Bytes)
      → (message' : Bytes) × (crates.parse base' (src ++ more) ≡ failed message')

pub IsStable-IsParser : {crates : Crates} → IsStable crates → IsParser crates
IsStable-IsParser s = record {
  in_buffer = λ base src amt p room e.
      let (o, same, i, extends) = s.complete_extends base src amt p room e in (o, same, i);
}

drop-append_le {ℓ} :
    {A : Type ℓ} (n : ℕ) (xs ys : List A) → n ≤ length xs → drop n (xs ++ ys) ≡ drop n xs ++ ys
drop-append_le zero xs ys h = refl
drop-append_le (suc n) [] ys h = absurd (omega arith)
drop-append_le (suc n) (x ∷ xs) ys h = drop-append_le n xs ys (omega arith)

take-append_le {ℓ} :
    {A : Type ℓ} (n : ℕ) (xs ys : List A) → n ≤ length xs → take n (xs ++ ys) ≡ take n xs
take-append_le zero xs ys h = refl
take-append_le (suc n) [] ys h = absurd (omega arith)
take-append_le (suc n) (x ∷ xs) ys h = ap (λ l. x ∷ l) (take-append_le n xs ys (omega arith))

module _ (src more : Bytes) (amt : ℕ) (fits : amt ≤ length src) where
  text_at-append : (p : Part) → IsInside amt p → text_at (src ++ more) p ≡ text_at src p
  text_at-append (start, len) h =
      ap (take len) (drop-append_le start src more (omega arith))
      ∙ take-append_le len (drop start src) more (omega (arith, length-drop start src))

  map-text_field-append :
      (hs : List (Part × Part))
      → All (AreInside amt) hs
      → map (text_field (src ++ more)) hs ≡ map (text_field src) hs
  map-text_field-append [] h = refl
  map-text_field-append ((k, v) ∷ hs) h =
      rw (text_at-append k h.0.0, text_at-append v h.0.1, map-text_field-append hs h.1)

branches :
    (method version : Bool) (j : Decoded (Option Request)) (x y : Error) (src rest more : Bytes)
    → let a : Decoded (Option Request) × Bytes =
        if method then (if version then (j, rest) else (err x, src)) else (err y, src) in
      ◌≡◌ {A = Decoded (Option Request) × Bytes}
        (if method
          then (if version then (j, rest ++ more) else (err x, src ++ more))
          else (err y, src ++ more))
        (a.0, a.1 ++ more)
branches true true j x y src rest more = refl
branches true false j x y src rest more = refl
branches false version j x y src rest more = refl

module _ (crates : Crates) where
  verdict-append :
      (src more : Bytes) (amt : ℕ) (o : Offsets)
      → InBuffer src amt o
      → verdict crates (src ++ more) amt o
        ≡ ((verdict crates src amt o).0, (verdict crates src amt o).1 ++ more)
  verdict-append src more amt o i =
      rw
        (
          text_at-append src more amt i.fits o.path i.path,
          map-text_field-append src more amt i.fits o.headers i.headers,
          drop-append_le amt src more i.fits,
        )
        (branches (crates.is_method o.method) (o.version == 1) _ _ _ src (drop amt src) more)

  -- What an answer on the first bytes says of the answer on all of them.
  abbrev pub Extends :
      Bytes → Decoded (Option Request) × Bytes → Decoded (Option Request) × Bytes → Type 0
  Extends more (ok (some r), rest) all = all ≡ (ok (some r), rest ++ more)
  Extends more (err e, rest) all = (e' : Error) × (v : Bytes) × (all ≡ (err e', v))
  Extends more (ok none, rest) all = Unit
  Extends more (panicked, rest) all = Unit

  same-Extends :
      (more : Bytes) (a all : Decoded (Option Request) × Bytes)
      → all ≡ (a.0, a.1 ++ more)
      → Extends more a all
  same-Extends more (ok (some r), rest) all e = e
  same-Extends more (ok none, rest) all e = tt
  same-Extends more (err x, rest) all e = (x, rest ++ more, e)
  same-Extends more (panicked, rest) all e = tt

  decode-Extends_of :
      (base base' : ℕ) (src more : Bytes) (s : Status)
      → crates.parse base src ≡ s
      → IsStable crates
      → base + length src < 2 ^ 64
      → base' + length (src ++ more) < 2 ^ 64
      → Extends more (decode crates base src) (decode crates base' (src ++ more))
  unfolding decode head finish
  decode-Extends_of base base' src more partial e st room room' = rw e tt
  decode-Extends_of base base' src more (failed message) e st room room' =
      let (message', again) = st.failed_extends base src message e base' more in
      rw (e, again) (_, _, refl)
  decode-Extends_of base base' src more (complete amt p) e st room room' =
      let (o, same, i, extends) = st.complete_extends base src amt p room e in
      let j : InBuffer (src ++ more) amt o = record {
        fits = omega (arith, i.fits, length-append src more);
        path = i.path;
        headers = i.headers;
        few = i.few;
      } in
      same-Extends more (decode crates base src) (decode crates base' (src ++ more)) (
        decode-verdict crates base' (src ++ more) room' amt o j (extends base' more)
        ∙ verdict-append src more amt o i
        ∙ ap (λ (a : Decoded (Option Request) × Bytes). (a.0, a.1 ++ more))
            (sym (decode-verdict crates base src room amt o i (e ∙ ap (complete amt) same))))

  -- A request, or an error, that is found in the first bytes is found in all of them.
  pub decode-Extends :
      (base base' : ℕ) (src more : Bytes)
      → IsStable crates
      → base + length src < 2 ^ 64
      → base' + length (src ++ more) < 2 ^ 64
      → Extends more (decode crates base src) (decode crates base' (src ++ more))
  decode-Extends base base' src more =
      decode-Extends_of base base' src more (crates.parse base src) refl
