-- ===== src/Tokio/Process/Answers.antt =====
-- What `process` sends, in terms of the whole of what the client sends.
use benchmark_reverse_proxie.Common.{
  ℕ, zero, suc, ◌+◌, ◌^◌, ◌<◌, ◌≤◌, ◌≡◌, refl, sym, ap, ◌∙◌, Bool, true, false, List, [], ◌∷◌, ◌++◌,
  append-nil, append_assoc, map, Option, some, length, arith, subst, take, All,
}
use benchmark_reverse_proxie.Common.Bytes.{Bytes, bytes}
use benchmark_reverse_proxie.Http.{print_response, lower}
use benchmark_reverse_proxie.Http.RoundTrip.{IsLine}
use benchmark_reverse_proxie.Toysync.Date.{SystemTime}
use benchmark_reverse_proxie.Toysync.Date.Cache.{IsRendering, IsCoherent, InRange}
use benchmark_reverse_proxie.Tokio.Decode.{Crates, Request}
use benchmark_reverse_proxie.Tokio.Decode.Stream.{IsStable, IsStable-IsParser}
use benchmark_reverse_proxie.Tokio.Encode.{Item}
use benchmark_reverse_proxie.Tokio.Encode.Read.{
  response_of, date_of, IsItem, encode-print, all_text,
}
use benchmark_reverse_proxie.Tokio.Process.{
  ResponseApi, Next, no_more, request, refused, broken, Tick, TransportApi, Outcome, finished,
  no_response, respond, sent, answered, round, process,
}
use benchmark_reverse_proxie.Tokio.Process.Transport.{IsBuilder, Gives, IsTransport}
use benchmark_reverse_proxie.Tokio.Process.Requests.{
  requests, requests-request, requests-refused, requests-no_more,
}
use benchmark_reverse_proxie.Tokio.Process.Ends.{Gives-shrinks}

-- The one response that `respond` makes.
abbrev pub page : Item
page = record {
  status = bytes "200 OK";
  headers = (bytes "content-type", bytes "text/plain") ∷ [];
  body = bytes "Hello, World!\n";
}

pub page-IsItem : IsItem page
page-IsItem = record { status = omega arith; headers = omega arith }

pub respond-page : (api : ResponseApi) → IsBuilder api → (r : Request) → respond api r ≡ some page
unfolding respond lower
respond-page api b r = b.body_made _ (bytes "Hello, World!\n") _ (
    b.fields-header api.builder (bytes "Content-Type") (bytes "text/plain") [] b.fields-builder
      refl)

abbrev pub reply_at : Tick → Item × SystemTime
reply_at tick = (page, tick.now)

-- The first `n` replies, each with the date of its tick.
abbrev pub replies : ℕ → List Tick → List (Item × SystemTime)
replies n ticks = map reply_at (take n ticks)

pub length-replies : (n : ℕ) (ticks : List Tick) → n ≤ length ticks → length (replies n ticks) ≡ n
length-replies zero ticks h = refl
length-replies (suc n) [] h = absurd (omega arith)
length-replies (suc n) (tick ∷ ticks) h = ap suc (length-replies n ticks (omega arith))

module _ (api : ResponseApi) (b : IsBuilder api) (crates : Crates) (st : IsStable crates)
    (http_date : SystemTime → Option (List Bytes)) (limit : ℕ) (render : ℕ → List Bytes)
    (r : IsRendering http_date limit render) (tr : TransportApi)
    (laws : IsTransport crates http_date tr) where
  open tr use {Transport}

  -- The thread's cache is coherent, and the clock is in range and its date a line.
  abbrev pub IsGoodTick : Tick → Type 0
  IsGoodTick tick =
      IsCoherent render tick.cache × InRange limit tick.now × IsLine (date_of render tick.now)

  abbrev pub text_of : List (Item × SystemTime) → Bytes
  text_of items = all_text http_date limit render r items

  -- What the client has been sent when `process` returns: on an end or a refused request the
  -- replies to all requests, and where the socket breaks the beginning of these.
  abbrev pub Verdict : List Request → List Tick → Bytes → Outcome × Transport → Type 0
  Verdict reqs ticks w (finished, t) = laws.written t ≡ w ++ text_of (replies (length reqs) ticks)
  Verdict reqs ticks w (refused e, t) = laws.written t ≡ w ++ text_of (replies (length reqs) ticks)
  Verdict reqs ticks w (broken, t) =
      (part unsent : Bytes) × (text_of (replies (length reqs) ticks) ≡ part ++ unsent)
      × (laws.written t ≡ w ++ part)
  Verdict reqs ticks w (no_response, t) = ⊥

  abbrev pub Meets : List Request → List Tick → Bytes → Option (Outcome × Transport) → Type 0
  Meets reqs ticks w o = (end : Outcome × Transport) × (o ≡ some end) × Verdict reqs ticks w end

  abbrev first : Tick → Bytes
  first tick = print_response (response_of page (date_of render tick.now)) []

  Verdict-later :
      (q : Request) (reqs : List Request) (tick : Tick) (ticks : List Tick) (w : Bytes)
      (end : Outcome × Transport)
      → Verdict reqs ticks (w ++ first tick) end
      → Verdict (q ∷ reqs) (tick ∷ ticks) w end
  Verdict-later q reqs tick ticks w (finished, t) e = e ∙ append_assoc w (first tick) _
  Verdict-later q reqs tick ticks w (refused x, t) e = e ∙ append_assoc w (first tick) _
  Verdict-later q reqs tick ticks w (no_response, t) v = elim v [ ]
  Verdict-later q reqs tick ticks w (broken, t) (part, unsent, cut, e) = (
    first tick ++ part,
    unsent,
    ap (λ l. first tick ++ l) cut ∙ sym (append_assoc (first tick) part unsent),
    e ∙ append_assoc w (first tick) part,
  )

  sent-Meets :
      (go : Transport → Option (Outcome × Transport)) (q : Request) (reqs : List Request)
      (tick : Tick) (ticks : List Tick) (w : Bytes) (a : Bool × Transport)
      → (a.0 ≡ true → laws.written a.1 ≡ w ++ first tick)
      → (a.0 ≡ false
          → (part unsent : Bytes) × (first tick ≡ part ++ unsent) × (laws.written a.1 ≡ w ++ part))
      → Meets reqs ticks (laws.written a.1) (go a.1)
      → Meets (q ∷ reqs) (tick ∷ ticks) w (sent api tr go a)
  unfolding sent
  sent-Meets go q reqs tick ticks w (true, t) whole partly (end, e, v) = (
    end,
    e,
    Verdict-later q reqs tick ticks w end (subst (λ k. Verdict reqs ticks k end) (whole refl) v),
  )
  sent-Meets go q reqs tick ticks w (false, t) whole partly k =
      let (part, unsent, cut, e) = partly refl in
      let rest = text_of (replies (length reqs) ticks) in
      (
        (broken, t),
        refl,
        (part, unsent ++ rest, ap (λ l. l ++ rest) cut ∙ append_assoc part unsent rest, e),
      )

  -- What a round does, if the rounds after it do it.
  module _ (base n : ℕ) (before : Bytes) (tick : Tick) (ticks : List Tick) (good : IsGoodTick tick)
      (go : Transport → Option (Outcome × Transport))
      (later : (s : Transport)
        → length (laws.unread s) < length before
        → base + length (laws.unread s) < 2 ^ 64
        → Meets (requests crates base n (laws.unread s)) ticks (laws.written s) (go s)) where
    answered-Meets :
        (q : Request) (t : Transport)
        → length (laws.unread t) < length before
        → base + length (laws.unread t) < 2 ^ 64
        → Meets
            (q ∷ requests crates base n (laws.unread t))
            (tick ∷ ticks)
            (laws.written t)
            (answered api tr go tick (some page) t)
    unfolding answered
    answered-Meets q t less room =
        let (printed, out, fresh) =
          encode-print http_date limit render r page tick.now
            (record { dst = []; cache = tick.cache }) good.1 good.0 in
        let same = laws.unread-send page tick t in
        sent-Meets go q _ tick ticks (laws.written t) (tr.send page tick t)
          (λ whole. laws.send_writes page tick t printed whole ∙ ap (λ l. laws.written t ++ l) out)
          (λ cut.
            let (part, unsent, e, w) = laws.send_breaks page tick t printed cut in
            (part, unsent, sym out ∙ e, w))
          (subst
            (λ u.
              Meets (requests crates base n u) ticks (laws.written (tr.send page tick t).1)
                (go (tr.send page tick t).1))
            same
            (later (tr.send page tick t).1 (omega (arith, less, ap length same))
              (omega (arith, room, ap length same))))

    round-Meets :
        (a : Next × Transport)
        → base + length before < 2 ^ 64
        → Gives crates before a.0 (laws.unread a.1)
        → Meets
            (requests crates base (suc n) before)
            (tick ∷ ticks)
            (laws.written a.1)
            (round api tr go tick a)
    unfolding round
    round-Meets (no_more, t) room g =
        (_, refl, rw (requests-no_more crates st base n before [] room g) (sym (append-nil _)))
    round-Meets (request q, t) room g =
        let less =
          Gives-shrinks crates (IsStable-IsParser st) before (laws.unread t) (request q) q refl g in
        rw (requests-request crates st base n before (laws.unread t) room q g, respond-page api b q)
          (answered-Meets q t (omega (arith, less)) (omega (arith, less)))
    round-Meets (refused x, t) room g =
        (_, refl, rw (requests-refused crates st base n before [] room x g) (sym (append-nil _)))
    round-Meets (broken, t) room g = (_, refl, ([], _, refl, sym (append-nil _)))

  -- The loop, on enough ticks.
  pub process-Meets :
      (base n : ℕ) (ticks : List Tick) (t : Transport)
      → length (laws.unread t) < n
      → base + length (laws.unread t) < 2 ^ 64
      → length (laws.unread t) < length ticks
      → All IsGoodTick ticks
      → Meets
          (requests crates base n (laws.unread t))
          ticks
          (laws.written t)
          (process api tr ticks t)
  unfolding process
  process-Meets base n [] t short room enough good = absurd (omega (arith, enough))
  process-Meets base zero (tick ∷ ticks) t short room enough good = absurd (omega (arith, short))
  process-Meets base (suc n) (tick ∷ ticks) t short room enough good =
      subst
        (λ w.
          Meets (requests crates base (suc n) (laws.unread t)) (tick ∷ ticks) w
            (process api tr (tick ∷ ticks) t))
        (laws.written-next t)
        (round-Meets base n (laws.unread t) tick ticks good.0 (λ s. process api tr ticks s)
          (λ s less near.
            process-Meets base n ticks s (omega (arith, less, short)) near
              (omega (arith, less, enough)) good.1)
          (tr.next t) room (laws.next_gives t))
