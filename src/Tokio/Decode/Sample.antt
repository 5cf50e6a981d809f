-- ===== src/Tokio/Decode/Sample.antt =====
-- A stand-in for the crates, which knows one request and finds it in front of every buffer that is
-- long enough.
use benchmark_reverse_proxie.Common.{
  ℕ, ◌≤◌, ◌≡◌, sym, inl, inr, true, [], ◌∷◌, ◌++◌, arith, length, length-append, le→leb, ap, leb,
  leb→le, Bool-cases, if◌then◌else◌, subst,
}
use benchmark_reverse_proxie.Common.Bytes.{Bytes, bytes}
use benchmark_reverse_proxie.Tokio.Decode.{Parsed, complete, partial, failed, Crates}
use benchmark_reverse_proxie.Tokio.Decode.Complete.{Offsets, placed, InBuffer}
use benchmark_reverse_proxie.Tokio.Decode.Stream.{IsStable, IsStable-IsParser}
use benchmark_reverse_proxie.Tokio.Decode.Total.{IsParser}

abbrev pub get_root : Bytes
get_root = bytes "GET / HTTP/1.1\r\nHost: a\r\n\r\n"

abbrev pub offsets : Offsets
offsets = record {
  method = bytes "GET";
  path = (4, 1);
  version = 1;
  headers = ((16, 4), (22, 1)) ∷ [];
}

abbrev pub crates : Crates
crates = record {
  parse = λ base src. if leb 27 (length src) then complete 27 (placed base offsets) else partial;
  is_method = λ m. true;
  is_uri = λ m. true;
  is_name = λ m. true;
  is_value = λ m. true;
}

pub offsets-InBuffer : (src : Bytes) → 27 ≤ length src → InBuffer src 27 offsets
offsets-InBuffer src h = record {
  fits = h;
  path = omega arith;
  headers = omega arith;
  few = omega arith;
}

complete_amt : {a b : ℕ} {p q : Parsed} → complete a p ≡ complete b q → (a ≡ b) × (p ≡ q)
complete_amt e = (cc, cc)

length-append_le : (src more : Bytes) → 27 ≤ length src → leb 27 (length (src ++ more)) ≡ true
length-append_le src more h =
    le→leb 27 (length (src ++ more)) (omega (arith, length-append src more))

pub crates-IsStable : IsStable crates
crates-IsStable = record {
  complete_extends = λ base src amt p room e. elim (Bool-cases (leb 27 (length src))) [
    | inl long ↦
        let (n, same) = complete_amt {b = amt} {q = p} (rw long at e) in
        let enough = leb→le 27 (length src) long in
        (
          offsets,
          sym same,
          subst (λ k. InBuffer src k offsets) n (offsets-InBuffer src enough),
          λ base' more.
              rw (length-append_le src more enough) (ap (λ k. complete k (placed base' offsets)) n),
        )
    | inr short ↦ let never : partial ≡ complete amt p = rw short at e in cc
  ];
  failed_extends = λ base src message e. elim (Bool-cases (leb 27 (length src))) [
    | inl long ↦ let never : complete 27 (placed base offsets) ≡ failed message = rw long at e in cc
    | inr short ↦ let never : partial ≡ failed message = rw short at e in cc
  ];
}

pub crates-IsParser : IsParser crates
crates-IsParser = IsStable-IsParser crates-IsStable
