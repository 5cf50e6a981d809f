-- ===== src/Heph/Conversation.antt =====
-- What a client of origin-heph gets, without the headers that the actor reuses.
use benchmark_reverse_proxie.Common.{
  ℕ, ◌≡◌, refl, ap, ◌∙◌, Bool, true, false, not, List, [], ◌∷◌, ◌++◌, Option, some, arith,
  Bool-cases, inl, inr, if◌then◌else◌, append_assoc,
}
use benchmark_reverse_proxie.Common.Bytes.{Bytes, bytes}
use benchmark_reverse_proxie.Http.{Field, eq_bytes}
use benchmark_reverse_proxie.Http.RoundTrip.{IsField}
use benchmark_reverse_proxie.Heph.{
  HeadersApi, IsHeaders, Request, ReadError, Next, request, no_more, failed, Reply, Run, waiting,
  returned_ok, returned_err, read_timeout, alive_timeout, is_get_or_head, answer_request,
  answer_error, finish_headers, send_reply, actor_loop, http_actor,
}

-- Code, body and closing, with the fields of its own, by request.
abbrev pub Answer : Type 0
Answer = ℕ × Bytes × Bool × List Field

abbrev pub answer_to : Request → Answer
answer_to r =
    if not (eq_bytes r.path (bytes "/"))
    then (404, bytes "Not found", false, [])
    else if not (is_get_or_head r.method)
    then (405, bytes "Method not allowed", false, (bytes "allow", bytes "GET, HEAD") ∷ [])
    else if r.has_body
    then (413, bytes "Not expecting a body", true, [])
    else (200, bytes "Hello, world!\n", false, [])

abbrev pub answer_to_error : ReadError → Answer
answer_to_error e = (e.proper_status_code, bytes "Bad request: " ++ e.display, e.should_close, [])

abbrev closing_fields : Bool → List Field
closing_fields close = if close then (bytes "connection", bytes "close") ∷ [] else []

abbrev pub reply_of : Answer → Reply
reply_of (code, body, close, own) = record {
  code = code;
  fields = own ++ ((bytes "server", bytes "heph") ∷ closing_fields close);
  body = body;
}

-- The run after an answer: it ends where the reply is not written, or closes; else `rest` follows.
abbrev pub then_reply : ℕ → Answer → Bool → Run → Run
then_reply wait a wrote rest =
    let next : Run =
      if not wrote
      then record { waits = []; replies = []; ending = returned_err }
      else if a.2
      then record { waits = []; replies = []; ending = returned_ok }
      else rest in
    record { waits = wait ∷ next.waits; replies = reply_of a ∷ next.replies; ending = next.ending }

-- The conversation, by what the connection does. Each reply depends on its own request alone.
unfoldable pub conversation : ℕ → List (Next × Bool) → Run
conversation wait [] = record { waits = wait ∷ []; replies = []; ending = waiting }
conversation wait ((no_more, wrote) ∷ later) = record {
  waits = wait ∷ [];
  replies = [];
  ending = returned_ok;
}
conversation wait ((request r, wrote) ∷ later) =
    then_reply wait (answer_to r) wrote (conversation alive_timeout later)
conversation wait ((failed e, wrote) ∷ later) =
    then_reply wait (answer_to_error e) wrote (conversation alive_timeout later)

module _ (api : HeadersApi) (laws : IsHeaders api) where
  open api use {Headers}

  -- The answer that is meant, on headers that hold its fields.
  record Made (a : Answer) (made : Option (ℕ × Bytes × Bool × Headers)) : Type 0 where
    headers : Headers
    is_some : made ≡ some (a.0, a.1, a.2, headers)
    own : api.iter headers ≡ a.3

  append_to :
      (h : Headers) (name value : Bytes) (fs : List Field)
      → IsField (name, value)
      → api.iter h ≡ fs
      → (h' : Headers) × (api.append h name value ≡ some h')
        × (api.iter h' ≡ fs ++ (name, value) ∷ [])
  append_to h name value fs f e =
      let (h', added, shown) = laws.iter-append h name value f in
      (h', added, shown ∙ ap (λ l. l ++ (name, value) ∷ []) e)

  answer_request-Made :
      (h : Headers) (r : Request) → api.iter h ≡ [] → Made (answer_to r) (answer_request api h r)
  unfolding answer_request
  answer_request-Made h r e = elim (Bool-cases (eq_bytes r.path (bytes "/"))) [
    | inr other ↦ rw other (record { headers = h; is_some = refl; own = e })
    | inl root ↦ elim (Bool-cases (is_get_or_head r.method)) [
      | inr bad ↦
          let (h', added, shown) =
            append_to h (bytes "allow") (bytes "GET, HEAD") [] (omega arith) e in
          rw (root, bad, added) (record { headers = h'; is_some = refl; own = shown })
      | inl good ↦ elim (Bool-cases r.has_body) [
        | inl body ↦ rw (root, good, body) (record { headers = h; is_some = refl; own = e })
        | inr empty ↦ rw (root, good, empty) (record { headers = h; is_some = refl; own = e })
      ]
    ]
  ]

  finish_headers-shown :
      (close : Bool) (h : Headers) (own : List Field)
      → api.iter h ≡ own
      → (h' : Headers) × (finish_headers api close h ≡ some h')
        × (api.iter h' ≡ own ++ ((bytes "server", bytes "heph") ∷ closing_fields close))
  unfolding finish_headers
  finish_headers-shown false h own e =
      let (h', added, shown) = append_to h (bytes "server") (bytes "heph") own (omega arith) e in
      (h', rw (added, finish_headers), shown)
  finish_headers-shown true h own e =
      let (h', added, shown) = append_to h (bytes "server") (bytes "heph") own (omega arith) e in
      let (h'', more, all) =
        append_to h' (bytes "connection") (bytes "close") _ (omega arith) shown in
      (h'', rw (added, finish_headers) more, all ∙ append_assoc own _ _)

  send_reply-then_reply :
      (wait : ℕ) (a : Answer) (made : Option (ℕ × Bytes × Bool × Headers)) (wrote : Bool)
      (rest : Headers → Run) (r : Run)
      → Made a made
      → ((h : Headers) → api.iter h ≡ [] → rest h ≡ r)
      → (record (send_reply api made wrote rest) {
        waits = wait ∷ (send_reply api made wrote rest).waits;
      })
        ≡ then_reply wait a wrote r
  unfolding send_reply
  send_reply-then_reply wait a made wrote rest r m same =
      let (full, finished, shown) = finish_headers-shown a.2 m.headers a.3 m.own in
      rw (m.is_some, send_reply)
        (rw (finished, shown, same (api.clear full) (laws.iter-clear full)) refl)

  actor_loop-conversation :
      (events : List (Next × Bool)) (wait : ℕ) (h : Headers)
      → api.iter h ≡ []
      → actor_loop api events wait h ≡ conversation wait events
  unfolding actor_loop conversation answer_error
  actor_loop-conversation [] wait h e = refl
  actor_loop-conversation ((no_more, wrote) ∷ later) wait h e = refl
  actor_loop-conversation ((request r, wrote) ∷ later) wait h e =
      send_reply-then_reply wait (answer_to r) (answer_request api h r) wrote _ _
        (answer_request-Made h r e) (λ h' e'. actor_loop-conversation later alive_timeout h' e')
  actor_loop-conversation ((failed f, wrote) ∷ later) wait h e =
      send_reply-then_reply wait (answer_to_error f) (answer_error api h f) wrote _ _
        (record { headers = h; is_some = refl; own = e })
        (λ h' e'. actor_loop-conversation later alive_timeout h' e')

  -- Where the peer's address is had and the headers keep their contract, the actor is the
  -- conversation: whatever the requests, errors and failed writes, it never panics on its headers,
  -- each reply has the fields of its own answer, `server: heph` and, where the connection is
  -- closed, `connection: close`, and no field of an earlier reply; it ends at the first reply that
  -- is not written or that closes, and at the end of the requests; it waits for the first request
  -- for `READ_TIMEOUT`, and for each later one for `ALIVE_TIMEOUT`.
  pub http_actor-conversation :
      (events : List (Next × Bool)) → http_actor api true events ≡ conversation read_timeout events
  unfolding http_actor
  http_actor-conversation events =
      actor_loop-conversation events read_timeout api.empty laws.iter-empty
