-- ===== src/Toysync/Server/Jobs.antt =====
-- What a job of the server comes to, which depends on its client only.
use benchmark_reverse_proxie.Common.{
  ℕ, ◌≡◌, refl, sym, ap, ◌∙◌, Bool, true, false, List, [], append-nil, flatten, Option, none, some,
  inl, inr, Option-cases,
}
use benchmark_reverse_proxie.Common.Bytes.{Bytes}
use benchmark_reverse_proxie.Http.{read_response}
use benchmark_reverse_proxie.Toysync.Date.{SystemTime, LastRenderedNow, unix_secs}
use benchmark_reverse_proxie.Toysync.Date.Cache.{IsRendering, IsCoherent, InRange, fmt-render}
use benchmark_reverse_proxie.Toysync.Connection.{TcpStream, handle_connection, write_all}
use benchmark_reverse_proxie.Toysync.Connection.Response.{
  hello, HasDateLine, handle_connection-hello,
}
use benchmark_reverse_proxie.Toysync.Server.{returned, run_job}

abbrev went_well : Option Bytes → Option ℕ → Bool
went_well none broken_at = false
went_well (some request) (some n) = false
went_well (some request) none = true

-- The client's first read gives something, if only its end, and it takes the whole response.
abbrev pub behaves : TcpStream → Bool
behaves stream = went_well stream.filled stream.broken_at

behaves_fields :
    (filled : Option Bytes) (broken_at : Option ℕ)
    → went_well filled broken_at ≡ true
    → (request : Bytes) × (filled ≡ some request) × (broken_at ≡ none)
behaves_fields none b h = cc
behaves_fields (some request) (some n) h = cc
behaves_fields (some request) none h = (request, refl, refl)

module _ (http_date : SystemTime → Option (List Bytes)) (limit : ℕ) (render : ℕ → List Bytes)
    (r : IsRendering http_date limit render) (cache : LastRenderedNow) (now : SystemTime)
    (h : InRange limit now) (c : IsCoherent render cache) (stream : TcpStream) where
  -- The job returns exactly for a client that behaves, and keeps the thread's cache coherent.
  pub run_job-behaves :
      (returned (run_job http_date cache now stream).0 ≡ behaves stream)
      × IsCoherent render (run_job http_date cache now stream).1.cache
  unfolding handle_connection write_all
  run_job-behaves =
      let (written, fresh, secs) = fmt-render http_date limit render r now cache h c in
      elim (Option-cases stream.filled) [
        | inl nothing ↦ rw nothing (refl, c)
        | inr (request, filled) ↦ elim (Option-cases stream.broken_at) [
          | inl whole ↦ rw (filled, whole, written) (refl, fresh)
          | inr (n, broken) ↦ rw (filled, broken, written) (refl, fresh)
        ]
      ]

  -- A client that behaves reads the response that is meant.
  pub run_job-hello :
      HasDateLine render now
      → behaves stream ≡ true
      → read_response (run_job http_date cache now stream).1.sent
        ≡ some (hello (flatten (render (unix_secs now))), [])
  run_job-hello line good =
      let (request, filled, whole) = behaves_fields stream.filled stream.broken_at good in
      let (text, finished, sent, read) =
        handle_connection-hello http_date limit render r stream now
          (record { cache = cache; sent = [] }) request h line c filled whole in
      ap read_response (sent ∙ sym (append-nil text)) ∙ read []
