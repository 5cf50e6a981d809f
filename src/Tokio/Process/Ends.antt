-- ===== src/Tokio/Process/Ends.antt =====
-- A connection comes to its end: each round of `process` takes bytes off what the client sent.
use benchmark_reverse_proxie.Common.{
  ℕ, ◌+◌, ◌^◌, ◌<◌, ◌≡◌, refl, ap, Bool, true, false, List, [], ◌∷◌, Option, none, some, length,
  length-append, length-drop, arith, subst,
}
use benchmark_reverse_proxie.Common.Bytes.{Bytes}
use benchmark_reverse_proxie.Toysync.Date.{SystemTime}
use benchmark_reverse_proxie.Tokio.Decode.{Crates, Request, Decoded, ok, decode}
use benchmark_reverse_proxie.Tokio.Decode.Total.{IsParser, Leaves, decode-Leaves}
use benchmark_reverse_proxie.Tokio.Encode.{Item}
use benchmark_reverse_proxie.Tokio.Process.{
  ResponseApi, Next, no_more, request, refused, broken, Tick, TransportApi, Outcome, respond, sent,
  answered, round, process,
}
use benchmark_reverse_proxie.Tokio.Process.Transport.{Gives, IsTransport}

module _ (crates : Crates) (p : IsParser crates) where
  -- A request takes bytes off the buffer.
  pub decode-shrinks :
      (base : ℕ) (src rest : Bytes) (r : Request)
      → base + length src < 2 ^ 64
      → decode crates base src ≡ (ok (some r), rest)
      → length rest < length src
  decode-shrinks base src rest r room e =
      let (amt, parsed, found, some_bytes, left) =
        subst (λ (a : Decoded (Option Request) × Bytes). Leaves crates base src a.0 a.1) e
          (decode-Leaves crates base src p room) in
      let (o, same, i) = p.in_buffer base src amt parsed room found in
      omega (arith, i.fits, some_bytes, ap length left, length-drop amt src)

  pub Gives-shrinks :
      (before after : Bytes) (n : Next) (r : Request)
      → n ≡ request r
      → Gives crates before n after
      → length after < length before
  Gives-shrinks before after (request q) r same (base, seen, unseen, rest, cut, room, e, left) =
      let less = decode-shrinks base seen rest q room e in
      omega (
        arith,
        less,
        ap length cut,
        ap length left,
        length-append seen unseen,
        length-append rest unseen,
      )
  Gives-shrinks before after no_more r same g = cc
  Gives-shrinks before after (refused e) r same g = cc
  Gives-shrinks before after broken r same g = cc

module _ (api : ResponseApi) (crates : Crates) (http_date : SystemTime → Option (List Bytes))
    (tr : TransportApi) (laws : IsTransport crates http_date tr) where
  open tr use {Transport}

  abbrev Returns : Option (Outcome × Transport) → Type 0
  Returns o = (end : Outcome × Transport) × (o ≡ some end)

  sent-Returns :
      (go : Transport → Option (Outcome × Transport)) (a : Bool × Transport)
      → Returns (go a.1)
      → Returns (sent api tr go a)
  unfolding sent
  sent-Returns go (true, t) h = h
  sent-Returns go (false, t) h = (_, refl)

  answered-Returns :
      (go : Transport → Option (Outcome × Transport)) (tick : Tick) (item : Option Item)
      (t : Transport)
      → ((s : Transport) → laws.unread s ≡ laws.unread t → Returns (go s))
      → Returns (answered api tr go tick item t)
  unfolding answered
  answered-Returns go tick none t h = (_, refl)
  answered-Returns go tick (some item) t h =
      sent-Returns go (tr.send item tick t)
        (h (tr.send item tick t).1 (laws.unread-send item tick t))

  round-Returns :
      (go : Transport → Option (Outcome × Transport)) (tick : Tick) (a : Next × Transport)
      → ((r : Request) (s : Transport)
          → a.0 ≡ request r
          → laws.unread s ≡ laws.unread a.1
          → Returns (go s))
      → Returns (round api tr go tick a)
  unfolding round
  round-Returns go tick (no_more, t) h = (_, refl)
  round-Returns go tick (request r, t) h =
      answered-Returns go tick (respond api r) t (λ s same. h r s refl same)
  round-Returns go tick (refused e, t) h = (_, refl)
  round-Returns go tick (broken, t) h = (_, refl)

  -- If httparse and the transport keep their contracts, `process` returns after at most one round
  -- more than the client sends bytes, whatever it sends, in whatever portions, and whatever fails.
  pub process-ends :
      (ticks : List Tick) (t : Transport)
      → IsParser crates
      → length (laws.unread t) < length ticks
      → (end : Outcome × Transport) × (process api tr ticks t ≡ some end)
  unfolding process
  process-ends [] t p h = absurd (omega (arith, h))
  process-ends (tick ∷ later) t p h =
      round-Returns (λ s. process api tr later s) tick (tr.next t)
        λ r s found same.
          let less =
            Gives-shrinks crates p (laws.unread t) _ (tr.next t).0 r found (laws.next_gives t) in
          process-ends later s p (omega (arith, less, h, ap length same))
