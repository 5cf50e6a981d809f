-- ===== src/Tokio/Process/Client.antt =====
-- What the client of one connection reads.
use benchmark_reverse_proxie.Common.{
  Option-cases, inl, inr, false, ℕ, zero, suc, ◌+◌, ◌^◌, ◌<◌, ◌≤◌, ◌≡◌, refl, sym, ap, ◌∙◌, List,
  [], ◌∷◌, ◌++◌, map, Option, some, length, arith, subst, take, All,
}
use benchmark_reverse_proxie.Common.Bytes.{Bytes}
use benchmark_reverse_proxie.Http.{read_response, read_all, bodiless, read_answers}
use benchmark_reverse_proxie.Toysync.Date.{SystemTime}
use benchmark_reverse_proxie.Toysync.Date.Cache.{IsRendering}
use benchmark_reverse_proxie.Tokio.Decode.{Crates, Request}
use benchmark_reverse_proxie.Tokio.Decode.Stream.{IsStable}
use benchmark_reverse_proxie.Tokio.Encode.{Item}
use benchmark_reverse_proxie.Tokio.Encode.Read.{
  response_of, date_of, all_text, read_all-text, CanSend,
}
use benchmark_reverse_proxie.Tokio.Process.{
  ResponseApi, refused, broken, Tick, TransportApi, Outcome, finished, no_response, process,
}
use benchmark_reverse_proxie.Tokio.Process.Transport.{IsBuilder, IsTransport}
use benchmark_reverse_proxie.Tokio.Process.Requests.{requests}
use benchmark_reverse_proxie.Tokio.Process.Requests.{length-requests}
use benchmark_reverse_proxie.Tokio.Process.Answers.{
  page, page-IsItem, replies, length-replies, IsGoodTick, Verdict, process-Meets,
}

-- The request is one whose answer has a body.
abbrev pub HasBody : Request → Type 0
HasBody q = bodiless q.method ≡ false

abbrev pub methods : List Request → List Bytes
methods reqs = map (λ (q : Request). q.method) reqs

read_answers-all :
    (reqs : List Request) (text : Bytes)
    → All HasBody reqs
    → read_answers (methods reqs) text ≡ read_all (length reqs) text
unfolding read_answers read_all
read_answers-all [] text h = refl
read_answers-all (q ∷ reqs) text h = elim (Option-cases (read_response text)) [
  | inl bad ↦ rw (h.0, bad)
  | inr (r, good) ↦ rw (h.0, good, read_answers-all reqs r.1 h.1)
]

module _ (api : ResponseApi) (b : IsBuilder api) (crates : Crates) (st : IsStable crates)
    (http_date : SystemTime → Option (List Bytes)) (limit : ℕ) (render : ℕ → List Bytes)
    (r : IsRendering http_date limit render) (tr : TransportApi)
    (laws : IsTransport crates http_date tr) where
  open tr use {Transport}

  -- What a client reads in a text, whatever follows it: a response to each request, with the date of
  -- its tick.
  abbrev pub Reads : List Request → List Tick → Bytes → Type 0
  Reads reqs ticks text =
      (rest : Bytes)
      → read_answers (methods reqs) (text ++ rest)
        ≡ some (
          map (λ (tick : Tick). response_of page (date_of render tick.now))
              (take (length reqs) ticks),
          rest,
        )

  abbrev pub IsAnswered : List Request → List Tick → Bytes → Outcome × Transport → Type 0
  IsAnswered reqs ticks w (finished, t) =
      (text : Bytes) × Reads reqs ticks text × (laws.written t ≡ w ++ text)
  IsAnswered reqs ticks w (refused e, t) =
      (text : Bytes) × Reads reqs ticks text × (laws.written t ≡ w ++ text)
  IsAnswered reqs ticks w (broken, t) =
      (text unsent : Bytes) × Reads reqs ticks (text ++ unsent) × (laws.written t ≡ w ++ text)
  IsAnswered reqs ticks w (no_response, t) = ⊥

  abbrev Good : Tick → Type 0
  Good tick = IsGoodTick api b crates st http_date limit render r tr laws tick

  replies-CanSend :
      (n : ℕ) (ticks : List Tick)
      → All Good ticks
      → All (λ s. CanSend http_date limit render r s) (replies n ticks)
  replies-CanSend zero ticks good = tt
  replies-CanSend (suc n) [] good = tt
  replies-CanSend (suc n) (tick ∷ ticks) good =
      ((page-IsItem, good.0.1, good.0.2), replies-CanSend n ticks good.1)

  map-replies :
      (n : ℕ) (ticks : List Tick)
      → map (λ (s : Item × SystemTime). response_of s.0 (date_of render s.1)) (replies n ticks)
        ≡ map (λ (tick : Tick). response_of page (date_of render tick.now)) (take n ticks)
  map-replies zero ticks = refl
  map-replies (suc n) [] = refl
  map-replies (suc n) (tick ∷ ticks) =
      ap (λ l. response_of page (date_of render tick.now) ∷ l) (map-replies n ticks)

  replies-Reads :
      (reqs : List Request) (ticks : List Tick)
      → All Good ticks
      → length reqs ≤ length ticks
      → All HasBody reqs
      → Reads reqs ticks (all_text http_date limit render r (replies (length reqs) ticks))
  replies-Reads reqs ticks good few bodies rest =
      let n = length reqs in
      read_answers-all reqs _ bodies
      ∙ ap (λ k. read_all k (all_text http_date limit render r (replies n ticks) ++ rest))
          (sym (length-replies n ticks few))
      ∙ read_all-text http_date limit render r (replies n ticks) rest (replies-CanSend n ticks good)
      ∙ ap (λ l. some (l, rest)) (map-replies n ticks)

  Verdict-IsAnswered :
      (reqs : List Request) (ticks : List Tick) (w : Bytes) (end : Outcome × Transport)
      → Reads reqs ticks (all_text http_date limit render r (replies (length reqs) ticks))
      → Verdict api b crates st http_date limit render r tr laws reqs ticks w end
      → IsAnswered reqs ticks w end
  Verdict-IsAnswered reqs ticks w (finished, t) reads e = (_, reads, e)
  Verdict-IsAnswered reqs ticks w (refused x, t) reads e = (_, reads, e)
  Verdict-IsAnswered reqs ticks w (broken, t) reads (part, unsent, cut, e) =
      (part, unsent, subst (λ l. Reads reqs ticks l) cut reads, e)
  Verdict-IsAnswered reqs ticks w (no_response, t) reads v = elim v [ ]

  -- Where the crates keep their contracts, the stream lies in the address space, its requests are no
  -- HEAD and no CONNECT, and every round has a coherent cache and a date that can be rendered as a
  -- line: a connection is served to its end, however the network cuts the stream. A client whose
  -- stream ends after whole requests, or in a refused one, and which reads the answer to HEAD and
  -- CONNECT without a body, reads exactly as many responses as the stream holds requests, all alike
  -- but for the date; and where the socket breaks what was sent is the beginning of these.
  pub process-IsAnswered :
      (base n : ℕ) (ticks : List Tick) (t : Transport)
      → length (laws.unread t) < n
      → base + length (laws.unread t) < 2 ^ 64
      → length (laws.unread t) < length ticks
      → All Good ticks
      → All HasBody (requests crates base n (laws.unread t))
      → (end : Outcome × Transport) × (process api tr ticks t ≡ some end)
        × IsAnswered (requests crates base n (laws.unread t)) ticks (laws.written t) end
  process-IsAnswered base n ticks t short room enough good bodies =
      let reqs = requests crates base n (laws.unread t) in
      let few = length-requests crates st base n (laws.unread t) room in
      let (end, e, v) =
        process-Meets api b crates st http_date limit render r tr laws base n ticks t short room
          enough good in
      (
        end,
        e,
        Verdict-IsAnswered reqs ticks (laws.written t) end
            (replies-Reads reqs ticks good (omega (arith, few, enough)) bodies) v,
      )
