-- ===== src/Tokio/Threads.antt =====
-- The date caches of origin-tokio/src/main.rs: `LAST` is local to a thread, and the tasks of the
-- connections run on any of the threads of the runtime, one response here and the next one there.
mod Tests
use benchmark_reverse_proxie.Common.{
  ℕ, ◌<◌, ◌≡◌, refl, ap, ◌∙◌, List, [], ◌∷◌, map, Option, none, some, length, length-set,
  length-replicate, replicate, get_elem?, set, get_elem?-of_lt, All, All-set, All-get_elem?,
  All-replicate, arith,
}
use benchmark_reverse_proxie.Common.Bytes.{Bytes}
use benchmark_reverse_proxie.Common.Exec.{Outcome, done}
use benchmark_reverse_proxie.Http.{print_response}
use benchmark_reverse_proxie.Toysync.Date.{SystemTime, LastRenderedNow}
use benchmark_reverse_proxie.Toysync.Date.Cache.{IsRendering, IsCoherent, InRange, last-IsCoherent}
use benchmark_reverse_proxie.Tokio.Date.{last}
use benchmark_reverse_proxie.Tokio.Encode.{Item, encode}
use benchmark_reverse_proxie.Tokio.Encode.Read.{response_of, date_of, encode-print}

-- A response, the thread that encodes it, and the clock then.
pub record Encoding : Type 0 where
  pub thread : ℕ
  pub item : Item
  pub now : SystemTime

-- How `encode` came out, and what it wrote.
abbrev pub Written : Type 0
Written = Outcome (Unit {0}) × Bytes

module _ (http_date : SystemTime → Option (List Bytes)) where
  -- `LAST.with`: the encoder borrows the cache of the thread that it runs on.
  on_thread :
      (List LastRenderedNow → List Written)
      → List LastRenderedNow
      → Encoding
      → Option LastRenderedNow
      → List Written
  on_thread go caches e none = go caches
  on_thread go caches e (some cache) =
      let (outcome, k) = encode http_date e.item e.now (record { dst = []; cache = cache }) in
      (outcome, k.dst) ∷ go (set caches e.thread k.cache)

  -- What is written for each response, in the order in which they are encoded.
  unfoldable pub encode_on : List Encoding → List LastRenderedNow → List Written
  unfolding on_thread
  encode_on [] caches = []
  encode_on (e ∷ later) caches =
      on_thread (λ cs. encode_on later cs) caches e (get_elem? caches e.thread)

module _ (http_date : SystemTime → Option (List Bytes)) (limit : ℕ) (render : ℕ → List Bytes)
    (r : IsRendering http_date limit render) where
  -- The response without a cache.
  abbrev pub printed : Encoding → Written
  printed e = (done tt, print_response (response_of e.item (date_of render e.now)) [])

  coherent-printed :
      (encodings : List Encoding) (caches : List LastRenderedNow)
      → All (λ e. (e.thread < length caches) × InRange limit e.now) encodings
      → All (IsCoherent render) caches
      → encode_on http_date encodings caches ≡ map printed encodings
  unfolding encode_on
  coherent-printed [] caches h c = refl
  coherent-printed (e ∷ later) caches h c =
      let (cache, found) = get_elem?-of_lt caches e.thread h.0.0 in
      let coherent = All-get_elem? (IsCoherent render) caches e.thread cache found c in
      let (finished, text, fresh) =
        encode-print http_date limit render r e.item e.now (record { dst = []; cache = cache })
          h.0.1 coherent in
      let k = (encode http_date e.item e.now (record { dst = []; cache = cache })).1 in
      let same = length-set caches e.thread k.cache in
      let rest =
        coherent-printed later (set caches e.thread k.cache) (rw same h.1)
          (All-set (IsCoherent render) caches e.thread k.cache c fresh) in
      rw (found, finished, text, rest)

  -- However the tasks move between the threads, each of which starts with the cache that `LAST` is
  -- initialised with: where the clock is in range, every response is encoded without a panic and as
  -- without a cache, with the date of its own time, whatever the threads encoded before and whatever
  -- way their clocks went.
  pub encode_on-printed :
      (size : ℕ) (encodings : List Encoding)
      → All (λ e. (e.thread < size) × InRange limit e.now) encodings
      → encode_on http_date encodings (replicate size last) ≡ map printed encodings
  encode_on-printed size encodings h =
      coherent-printed encodings (replicate size last) (rw (length-replicate size last) h)
        (All-replicate (IsCoherent render) size last (last-IsCoherent render))
