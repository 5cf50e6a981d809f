-- ===== src/Toysync/Date/Buffer.antt =====
-- What the calls of `write_str` leave in the cache.
use benchmark_reverse_proxie.Common.{
  ℕ, ◌+◌, ◌≤◌, ◌≡◌, refl, sym, ap, ◌∙◌, List, [], ◌∷◌, ◌++◌, flatten, append_assoc, append-nil,
  arith, length, take, drop, length-append, length-take, length-drop, take-append, le→leb, subst,
}
use benchmark_reverse_proxie.Common.Bytes.{Bytes}
use benchmark_reverse_proxie.Common.Exec.{done}
use benchmark_reverse_proxie.Toysync.Date.{LastRenderedNow, write_str, write_pieces}

-- The text that is cached.
abbrev pub text : LastRenderedNow → Bytes
text c = take c.amt c.bytes

-- The array keeps its size, and `amt` stays inside it.
pub record IsValid (c : LastRenderedNow) : Type 0 where
  pub size : length c.bytes ≡ 128
  pub within : c.amt ≤ 128

-- From `c` to `d` the text `s` was added.
pub record Wrote (s : Bytes) (c d : LastRenderedNow) : Type 0 where
  pub valid : IsValid d
  pub amt : d.amt ≡ c.amt + length s
  pub text : text d ≡ text c ++ s
  pub unix_date : d.unix_date ≡ c.unix_date

module _ {ℓ} {A : Type ℓ} (bs s : List A) (n : ℕ) (room : n + length s ≤ length bs) where
  length-written : length (take n bs ++ s) ≡ n + length s
  length-written = omega (arith, length-append (take n bs) s, length-take n bs (omega arith))

  pub length-splice : length (take n bs ++ (s ++ drop (n + length s) bs)) ≡ length bs
  length-splice = omega (
    arith,
    length-append (take n bs) (s ++ drop (n + length s) bs),
    length-append s (drop (n + length s) bs),
    length-take n bs (omega arith),
    length-drop (n + length s) bs,
  )

  pub take-splice :
      take (n + length s) (take n bs ++ (s ++ drop (n + length s) bs)) ≡ take n bs ++ s
  take-splice = rw (← append_assoc (take n bs) s (drop (n + length s) bs)) (
      subst (λ k. take k ((take n bs ++ s) ++ drop (n + length s) bs) ≡ take n bs ++ s)
        length-written (take-append (take n bs ++ s) (drop (n + length s) bs)))

pub write_str-Wrote :
    (s : Bytes) (c : LastRenderedNow)
    → IsValid c
    → c.amt + length s ≤ 128
    → ((write_str s c).0 ≡ done tt) × Wrote s c (write_str s c).1
unfolding write_str
write_str-Wrote s c v room =
    let fits : c.amt + length s ≤ length c.bytes = omega (arith, v.size) in
    rw (le→leb _ _ fits) (
      refl,
      record {
        valid = record { size = length-splice c.bytes s c.amt fits ∙ v.size; within = room };
        amt = refl;
        text = take-splice c.bytes s c.amt fits;
        unix_date = refl;
      },
    )

-- Pieces that fit are all written, one behind the other.
pub write_pieces-Wrote :
    (ss : List Bytes) (c : LastRenderedNow)
    → IsValid c
    → c.amt + length (flatten ss) ≤ 128
    → ((write_pieces ss c).0 ≡ done tt) × Wrote (flatten ss) c (write_pieces ss c).1
unfolding write_pieces flatten
write_pieces-Wrote [] c v room =
    (refl, record { valid = v; amt = omega arith; text = sym (append-nil _); unix_date = refl })
write_pieces-Wrote (s ∷ ss) c v room =
    let (finished, w) = write_str-Wrote s c v (omega (arith, length-append s (flatten ss))) in
    let (all, ws) =
      write_pieces-Wrote ss (write_str s c).1 w.valid
        (omega (arith, w.amt, length-append s (flatten ss))) in
    rw finished (
      all,
      record {
        valid = ws.valid;
        amt = omega (arith, ws.amt, w.amt, length-append s (flatten ss));
        text = ws.text ∙ ap (λ t. t ++ flatten ss) w.text ∙ append_assoc (text c) s (flatten ss);
        unix_date = ws.unix_date ∙ w.unix_date;
      },
    )
