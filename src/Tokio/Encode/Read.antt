-- ===== src/Tokio/Encode/Read.antt =====
-- What a client reads from the responses that `encode` writes.
use benchmark_reverse_proxie.Common.{
  ℕ, ◌≡◌, refl, sym, ap, ◌∙◌, List, [], ◌∷◌, ◌++◌, append_assoc, append-nil, flatten, map, Option,
  some, arith, length, All, All-append,
}
use benchmark_reverse_proxie.Common.Bytes.{Bytes, bytes}
use benchmark_reverse_proxie.Common.Bytes.Decimal.{decimal}
use benchmark_reverse_proxie.Common.Exec.{done}
use benchmark_reverse_proxie.Http.{
  read_all, Field, Response, print_fields, print_response, read_response, field_value,
}
use benchmark_reverse_proxie.Http.RoundTrip.{
  IsLine, IsField, IsFramed, read_response-print, decimal-IsLine,
}
use benchmark_reverse_proxie.Toysync.Date.{SystemTime, unix_secs}
use benchmark_reverse_proxie.Tokio.Date.{fmt}
use benchmark_reverse_proxie.Tokio.Date.Copy.{fmt-render}
use benchmark_reverse_proxie.Toysync.Date.Cache.{IsRendering, IsCoherent, InRange}
use benchmark_reverse_proxie.Tokio.Encode.{Item, Sink, put_headers, encode, encode_all}

-- The response that is meant.
abbrev pub response_of : Item → Bytes → Response
response_of item date = record {
  status = bytes "HTTP/1.1 " ++ item.status;
  fields =
      (bytes "Server", bytes "tokio")
      ∷ (bytes "Content-Length", decimal (length item.body))
      ∷ (bytes "Date", date)
      ∷ item.headers;
  body = item.body;
}

-- An item that http could have built: a status and fields of one line each.
pub record IsItem (item : Item) : Type 0 where
  pub status : IsLine item.status
  pub headers : All IsField item.headers

response_of-IsFramed :
    (item : Item) (date : Bytes) → IsItem item → IsLine date → IsFramed (response_of item date)
unfolding field_value
response_of-IsFramed item date h line = record {
  status = All-append _ (bytes "HTTP/1.1 ") item.status (omega arith) h.status;
  fields = (
    (omega arith, omega arith),
    ((omega arith, decimal-IsLine (length item.body)), ((omega arith, line), h.headers)),
  );
  content_length = refl;
}

put_headers-print :
    (fs : List Field) (k : Sink) (rest : Bytes)
    → (put_headers fs k).1.dst ++ (bytes "\r\n" ++ rest) ≡ k.dst ++ print_fields fs rest
unfolding put_headers
put_headers-print [] k rest = refl
put_headers-print ((n, v) ∷ fs) k rest = put_headers-print fs _ rest ∙ simp append_assoc

put_headers-done :
    (fs : List Field) (k : Sink)
    → ((put_headers fs k).0 ≡ done tt) × ((put_headers fs k).1.cache ≡ k.cache)
unfolding put_headers
put_headers-done [] k = (refl, refl)
put_headers-done ((n, v) ∷ fs) k = put_headers-done fs _

print_fields-append :
    (fs : List Field) (a b : Bytes) → print_fields fs a ++ b ≡ print_fields fs (a ++ b)
print_fields-append [] a b = refl
print_fields-append ((n, v) ∷ fs) a b = simp (append_assoc, print_fields-append fs a b)

print_response-append :
    (r : Response) (rest : Bytes) → print_response r [] ++ rest ≡ print_response r rest
print_response-append r rest = simp (append_assoc, print_fields-append, append-nil)

abbrev pub date_of : (ℕ → List Bytes) → SystemTime → Bytes
date_of render now = flatten (render (unix_secs now))

module _ (http_date : SystemTime → Option (List Bytes)) (limit : ℕ) (render : ℕ → List Bytes)
    (r : IsRendering http_date limit render) where
  pub encode-print :
      (item : Item) (now : SystemTime) (k : Sink)
      → InRange limit now
      → IsCoherent render k.cache
      → ((encode http_date item now k).0 ≡ done tt)
        × ((encode http_date item now k).1.dst
            ≡ k.dst ++ print_response (response_of item (date_of render now)) [])
        × IsCoherent render (encode http_date item now k).1.cache
  unfolding encode
  encode-print item now k h c =
      let (written, fresh, secs) = fmt-render http_date limit render r now k.cache h c in
      let s : Sink = record {
        dst =
            k.dst
            ++ bytes "HTTP/1.1 "
            ++ item.status
            ++ bytes "\r\nServer: tokio\r\nContent-Length: "
            ++ decimal (length item.body)
            ++ bytes "\r\nDate: "
            ++ date_of render now
            ++ bytes "\r\n";
        cache = (fmt http_date now k.cache).1;
      } in
      let (finished, kept) = put_headers-done item.headers s in
      rw (written, finished)
        (
          refl,
          append_assoc (put_headers item.headers s).1.dst (bytes "\r\n") item.body
              ∙ put_headers-print item.headers s item.body
              ∙ simp (append_assoc, append-nil),
          rw kept fresh,
        )

  -- Where the date can be rendered and is a line, the cache is coherent, and the item's texts are
  -- lines whose fields do not frame the body anew, a response that `encode` writes is read by any
  -- HTTP client as it is meant, whatever is sent after it: its status, the fields Server,
  -- Content-Length and Date in front of its own fields, and its body. What was in the buffer stays
  -- there.
  pub encode-read :
      (item : Item) (now : SystemTime) (k : Sink)
      → InRange limit now
      → IsLine (date_of render now)
      → IsCoherent render k.cache
      → IsItem item
      → (text : Bytes) × ((encode http_date item now k).0 ≡ done tt)
        × ((encode http_date item now k).1.dst ≡ k.dst ++ text)
        × ((rest : Bytes)
            → read_response (text ++ rest) ≡ some (response_of item (date_of render now), rest))
  encode-read item now k h line c i =
      let response = response_of item (date_of render now) in
      let (finished, written, fresh) = encode-print item now k h c in
      (
        print_response response [],
        finished,
        written,
        λ rest.
            ap read_response (print_response-append response rest)
            ∙ read_response-print response rest
                (response_of-IsFramed item (date_of render now) i line),
      )

  -- What has to hold of each response and of its time.
  abbrev pub CanSend : Item × SystemTime → Type 0
  CanSend s = IsItem s.0 × InRange limit s.1 × IsLine (date_of render s.1)

  abbrev pub all_text : List (Item × SystemTime) → Bytes
  all_text [] = []
  all_text (s ∷ later) = print_response (response_of s.0 (date_of render s.1)) [] ++ all_text later

  encode_all-print :
      (items : List (Item × SystemTime)) (k : Sink)
      → All CanSend items
      → IsCoherent render k.cache
      → ((encode_all http_date items k).0 ≡ done tt)
        × ((encode_all http_date items k).1.dst ≡ k.dst ++ all_text items)
  unfolding encode_all
  encode_all-print [] k h c = (refl, sym (append-nil k.dst))
  encode_all-print ((item, now) ∷ later) k h c =
      let (finished, written, fresh) = encode-print item now k h.0.1 c in
      let (all, rest) = encode_all-print later (encode http_date item now k).1 h.1 fresh in
      rw finished
        (all, rest ∙ ap (λ t. t ++ all_text later) written ∙ append_assoc k.dst _ (all_text later))

  pub read_all-text :
      (items : List (Item × SystemTime)) (rest : Bytes)
      → All CanSend items
      → read_all (length items) (all_text items ++ rest)
        ≡ some (map (λ s. response_of s.0 (date_of render s.1)) items, rest)
  unfolding read_all
  read_all-text [] rest h = refl
  read_all-text ((item, now) ∷ later) rest h =
      let response = response_of item (date_of render now) in
      rw (
        append_assoc (print_response response []) (all_text later) rest,
        print_response-append response (all_text later ++ rest),
        read_response-print response (all_text later ++ rest)
            (response_of-IsFramed item (date_of render now) h.0.0 h.0.2),
        read_all-text later rest h.1,
      )

  -- Responses that can be sent, one behind the other on one connection and from a coherent cache of
  -- the date, are told apart by the client: it reads them all, in order, and what follows them.
  pub encode_all-read :
      (items : List (Item × SystemTime)) (k : Sink)
      → All CanSend items
      → IsCoherent render k.cache
      → (text : Bytes) × ((encode_all http_date items k).0 ≡ done tt)
        × ((encode_all http_date items k).1.dst ≡ k.dst ++ text)
        × ((rest : Bytes)
            → read_all (length items) (text ++ rest)
              ≡ some (map (λ s. response_of s.0 (date_of render s.1)) items, rest))
  encode_all-read items k h c =
      let (finished, written) = encode_all-print items k h c in
      (all_text items, finished, written, λ rest. read_all-text items rest h)
