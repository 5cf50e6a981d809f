-- ===== src/Tokio/Process/Requests.antt =====
-- The requests in the whole of what a client sends, and that `process` gets these, however they
-- come.
use benchmark_reverse_proxie.Common.{
  ℕ, zero, suc, ◌+◌, ◌^◌, ◌<◌, ◌≤◌, ◌≡◌, refl, sym, ap, List, [], ◌∷◌, ◌++◌, Option, none, some,
  length, arith, subst,
}
use benchmark_reverse_proxie.Common.Bytes.{Bytes}
use benchmark_reverse_proxie.Tokio.Decode.{
  Crates, Request, Error, Decoded, ok, err, panicked, decode,
}
use benchmark_reverse_proxie.Tokio.Decode.Stream.{
  IsStable, IsStable-IsParser, Extends, decode-Extends,
}
use benchmark_reverse_proxie.Tokio.Process.{request, refused}
use benchmark_reverse_proxie.Tokio.Process.Transport.{Gives}
use benchmark_reverse_proxie.Tokio.Process.Ends.{decode-shrinks}

-- The requests in a stream: as many as can be decoded from its front, one behind the other. The
-- fuel has to exceed the stream's length.
module _ (crates : Crates) (base : ℕ) where
  found : (Bytes → List Request) → Decoded (Option Request) × Bytes → List Request
  found go (ok (some r), rest) = r ∷ go rest
  found go (ok none, rest) = []
  found go (err e, rest) = []
  found go (panicked, rest) = []

  unfoldable pub requests : ℕ → Bytes → List Request
  unfolding found
  requests zero stream = []
  requests (suc n) stream = found (λ rest. requests n rest) (decode crates base stream)

module _ (crates : Crates) (st : IsStable crates) (base n : ℕ) (before after : Bytes)
    (room : base + length before < 2 ^ 64) where
  seen_whole :
      (base' : ℕ) (seen unseen : Bytes) (a : Decoded (Option Request) × Bytes)
      → before ≡ seen ++ unseen
      → base' + length seen < 2 ^ 64
      → decode crates base' seen ≡ a
      → Extends crates unseen a (decode crates base before)
  seen_whole base' seen unseen a cut near e =
      let room' = subst (λ b. base + length b < 2 ^ 64) cut room in
      subst (λ b. Extends crates unseen a (decode crates base b)) (sym cut)
        (subst (λ x. Extends crates unseen x (decode crates base (seen ++ unseen))) e
          (decode-Extends crates base' base seen unseen st near room'))

  pub requests-request :
      (r : Request)
      → Gives crates before (request r) after
      → requests crates base (suc n) before ≡ r ∷ requests crates base n after
  unfolding requests
  requests-request r (base', seen, unseen, rest, cut, near, e, left) =
      rw (seen_whole base' seen unseen (ok (some r), rest) cut near e, left)

  pub requests-refused :
      (x : Error) → Gives crates before (refused x) after → requests crates base (suc n) before ≡ []
  unfolding requests
  requests-refused x (base', seen, unseen, rest, cut, near, e) =
      let (x', v, whole) = seen_whole base' seen unseen (err x, rest) cut near e in rw whole

  pub requests-no_more : before ≡ [] → requests crates base (suc n) before ≡ []
  unfolding requests
  requests-no_more empty = none_found (decode crates base before) refl
    where
      none_found :
          (a : Decoded (Option Request) × Bytes)
          → decode crates base before ≡ a
          → found crates base (λ rest. requests crates base n rest) a ≡ []
      none_found (ok (some r), rest) e =
          let less = decode-shrinks crates (IsStable-IsParser st) base before rest r room e in
          absurd (omega (arith, less, ap length empty))
      none_found (ok none, rest) e = refl
      none_found (err x, rest) e = refl
      none_found (panicked, rest) e = refl

-- A request takes a byte at least, so there are no more requests than bytes.
module _ (crates : Crates) (st : IsStable crates) (base : ℕ) where
  pub length-requests :
      (n : ℕ) (stream : Bytes)
      → base + length stream < 2 ^ 64
      → length (requests crates base n stream) ≤ length stream
  unfolding requests
  length-requests zero stream room = omega arith
  length-requests (suc n) stream room =
      length_found (decode crates base stream) refl (λ rest near. length-requests n rest near)
    where
      length_found :
          (a : Decoded (Option Request) × Bytes)
          → decode crates base stream ≡ a
          → ((rest : Bytes)
              → base + length rest < 2 ^ 64
              → length (requests crates base n rest) ≤ length rest)
          → length (found crates base (λ rest. requests crates base n rest) a) ≤ length stream
      length_found (ok (some r), rest) e ih =
          let less = decode-shrinks crates (IsStable-IsParser st) base stream rest r room e in
          omega (arith, less, ih rest (omega (arith, less)))
      length_found (ok none, rest) e ih = omega arith
      length_found (err x, rest) e ih = omega arith
      length_found (panicked, rest) e ih = omega arith
