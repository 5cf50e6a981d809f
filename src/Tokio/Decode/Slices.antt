-- ===== src/Tokio/Decode/Slices.antt =====
-- Offsets into the buffer: what `toslice` makes of the slices that httparse gives.
use benchmark_reverse_proxie.Common.{
  ℕ, zero, suc, ◌+◌, ◌-◌, ◌%◌, ◌^◌, ◌≤◌, ◌<◌, ◌≡◌, refl, ap, List, [], ◌∷◌, arith, length, take,
  drop, map, lt→ltb, le→leb, All, length-take,
}
use benchmark_reverse_proxie.Common.Bytes.{Bytes}
use benchmark_reverse_proxie.Tokio.Decode.{Slice, ok, toslice, header_slices, slice}

-- A part of the buffer: where it starts and how long it is.
abbrev pub Part : Type 0
Part = ℕ × ℕ

abbrev pub text_at : Bytes → Part → Bytes
text_at src (start, len) = take len (drop start src)

abbrev pub place : ℕ → Part → Slice
place base (start, len) = record { ptr = base + start; len = len }

abbrev pub range : Part → ℕ × ℕ
range (start, len) = (start, start + len)

-- The part lies in the first `amt` bytes, and starts in front of their end.
abbrev pub IsInside : ℕ → Part → Type 0
IsInside amt (start, len) = (start < amt) × (start + len ≤ amt)

abbrev pub place_field : ℕ → Part × Part → Slice × Slice
place_field base (k, v) = (place base k, place base v)

abbrev pub range_field : Part × Part → (ℕ × ℕ) × (ℕ × ℕ)
range_field (k, v) = (range k, range v)

abbrev pub text_field : Bytes → Part × Part → Bytes × Bytes
text_field src (k, v) = (text_at src k, text_at src v)

abbrev pub AreInside : ℕ → Part × Part → Type 0
AreInside amt (k, v) = IsInside amt k × IsInside amt v

take-drop-take {ℓ} :
    {A : Type ℓ} (amt start len : ℕ) (xs : List A)
    → start + len ≤ amt
    → take len (drop start (take amt xs)) ≡ take len (drop start xs)
take-drop-take amt zero zero xs h = refl
take-drop-take zero zero (suc len) xs h = absurd (omega arith)
take-drop-take (suc amt) zero (suc len) [] h = refl
take-drop-take (suc amt) zero (suc len) (x ∷ xs) h =
    ap (λ l. x ∷ l) (take-drop-take amt zero len xs (omega arith))
take-drop-take zero (suc start) len xs h = absurd (omega arith)
take-drop-take (suc amt) (suc start) len [] h = refl
take-drop-take (suc amt) (suc start) len (x ∷ xs) h = take-drop-take amt start len xs (omega arith)

module _ (base : ℕ) (src : Bytes) (room : base + length src < 2 ^ 64) (amt : ℕ)
    (fits : amt ≤ length src) where
  pub toslice-place : (p : Part) → IsInside amt p → toslice base src (place base p) ≡ ok (range p)
  unfolding toslice
  toslice-place (start, len) h =
      let e : (base + start + 2 ^ 64 - base) % 2 ^ 64 ≡ start = omega arith in
      let f : (start + len) % 2 ^ 64 ≡ start + len = omega arith in
      rw (e, lt→ltb start (length src) (omega arith), f)

  pub header_slices-place :
      (n : ℕ) (hs : List (Part × Part))
      → All (AreInside amt) hs
      → length hs ≤ n
      → header_slices n base src (map (place_field base) hs) ≡ ok (map range_field hs)
  unfolding header_slices
  header_slices-place n [] h few = refl
  header_slices-place zero ((k, v) ∷ hs) h few = absurd (omega arith)
  header_slices-place (suc n) ((k, v) ∷ hs) h few =
      rw (toslice-place k h.0.0, toslice-place v h.0.1, header_slices-place n hs h.1 (omega arith))

  pub slice-range :
      (p : Part) → IsInside amt p → slice (take amt src) (range p) ≡ ok (text_at src p)
  unfolding slice
  slice-range (start, len) h =
      let e : start + len - start ≡ len = omega arith in
      rw (
        le→leb start (start + len) (omega arith),
        length-take amt src fits,
        le→leb (start + len) amt h.1,
        e,
        take-drop-take amt start len src h.1,
      )
