-- ===== src/Origins/Pingora/Sends.antt =====
-- What a client of origin-pingora is sent.
use benchmark_reverse_proxie.Common.{
  ℕ, ◌^◌, ◌<◌, ◌≡◌, ◌↔◌, ◌⊎◌, inl, inr, refl, ap, ◌∙◌, Bool, true, false, [], ◌∷◌, ◌++◌,
  append_assoc, Option, none, some, arith, length, lt→ltb, length-append,
}
use benchmark_reverse_proxie.Common.Bytes.{Bytes, bytes}
use benchmark_reverse_proxie.Common.Bytes.Decimal.{decimal}
use benchmark_reverse_proxie.Common.Exec.{done, panicked, pure, ◌>>◌}
use benchmark_reverse_proxie.Http.{Response, print_response, read_response, field_value}
use benchmark_reverse_proxie.Http.RoundTrip.{IsLine, IsFramed, read_response-print}
use benchmark_reverse_proxie.Toysync.Date.{since_epoch}
use benchmark_reverse_proxie.Origins.Pingora.{
  Int64, nonneg, Stream, body, header, write_within, flush, to_date_string, process_new,
}

-- The response that is meant.
abbrev pub hello : Bytes → Response
hello date = record {
  status = bytes "HTTP/1.1 200 OK";
  fields =
      (bytes "content-type", bytes "text/plain")
      ∷ (bytes "content-length", decimal (length body))
      ∷ (bytes "date", date)
      ∷ (bytes "server", bytes "pingora")
      ∷ [];
  body = body;
}

hello-IsFramed : (date : Bytes) → IsLine date → IsFramed (hello date)
unfolding field_value decimal
hello-IsFramed date h = record {
  status = omega arith;
  fields = (omega arith, (omega arith, ((omega arith, h), (omega arith, tt))));
  content_length = refl;
}

-- The socket fails before it has taken so many bytes.
abbrev pub TooSmall : Option ℕ → ℕ → Type 0
TooSmall none n = ⊥
TooSmall (some room) n = room < n

writes_panic_iff :
    (room : Option ℕ) (flushes : Bool) (a b out : Bytes)
    → (((write_within room a
            >> (write_within room b >> (flush flushes >> pure {A = Option Stream} none)))
          out).0
        ≡ panicked)
      ↔ (TooSmall room (length (out ++ (a ++ b))) ⊎ (flushes ≡ false))
writes_panic_iff none true a b out = ((λ e. cc), (λ h. elim h [ inl x ↦ absurd x | inr x ↦ cc ]))
writes_panic_iff none false a b out = ((λ e. inr refl), (λ h. refl))
writes_panic_iff (some room) true a b out = ground (
  arith,
  length-append out (a ++ b),
  length-append a b,
  length-append out a,
  length-append (out ++ a) b,
)
writes_panic_iff (some room) false a b out = ground (
  arith,
  length-append out (a ++ b),
  length-append a b,
  length-append out a,
  length-append (out ++ a) b,
)

module _ (format : Int64 → Option Bytes) where
  header-print :
      (date rest : Bytes) → header format date ++ (body ++ rest) ≡ print_response (hello date) rest
  unfolding header decimal
  header-print date rest = simp append_assoc

  -- Where chrono renders the second as a line, and the socket takes everything, a client reads `200
  -- OK` with the four header fields, the date of the clock among them, and the text `Hello,
  -- world!`, with nothing left over; and the connection is given up.
  pub process_new-read :
      (secs nanos : ℕ) (date out : Bytes)
      → secs < 2 ^ 63
      → format (nonneg secs) ≡ some date
      → IsLine date
      → let run =
          process_new format
            (record { room = none; flushes = true })
            (since_epoch secs nanos)
            out in
        (run.0 ≡ done none)
        × (text : Bytes) × (run.1 ≡ out ++ text)
        × ((rest : Bytes) → read_response (text ++ rest) ≡ some (hello date, rest))
  unfolding process_new
  process_new-read secs nanos date out h f line =
      rw (lt→ltb secs (2 ^ 63) h, to_date_string, f)
        (
          refl,
          header format date ++ body,
          append_assoc out (header format date) body,
          λ rest.
              ap read_response
                (append_assoc (header format date) body rest ∙ header-print date rest)
              ∙ read_response-print (hello date) rest (hello-IsFramed date line),
        )

  -- At a second that chrono renders, the handler panics exactly if the socket does not take the
  -- whole response, or the flush fails.
  process_new_panics_iff :
      (io : Stream) (secs nanos : ℕ) (date out : Bytes)
      → secs < 2 ^ 63
      → format (nonneg secs) ≡ some date
      → ((process_new format io (since_epoch secs nanos) out).0 ≡ panicked)
        ↔ (TooSmall io.room (length (out ++ (header format date ++ body))) ⊎ (io.flushes ≡ false))
  unfolding process_new
  process_new_panics_iff io secs nanos date out h f =
      rw (lt→ltb secs (2 ^ 63) h, to_date_string, f)
        (writes_panic_iff io.room io.flushes (header format date) body out)
