-- ===== src/Heph.antt =====
-- origin-heph/src/main.rs: the actor that serves one connection, and the supervisors.
pub mod Conversation
pub mod Closing
mod Tests
use benchmark_reverse_proxie.Common.{
  ℕ, ◌≡◌, Bool, true, false, not, List, [], ◌∷◌, ◌++◌, Option, none, some, if◌then◌else◌,
}
use benchmark_reverse_proxie.Common.Bytes.{Bytes, bytes}
use benchmark_reverse_proxie.Http.{Field, eq_bytes}
use benchmark_reverse_proxie.Http.RoundTrip.{IsField}

-- `heph_http::Headers`: `append` gives an error (`none`) or the headers with one more field.
pub record HeadersApi : Type 1 where
  pub Headers : Type 0
  pub empty : Headers
  pub append : Headers → Bytes → Bytes → Option Headers
  pub clear : Headers → Headers
  pub iter : Headers → List Field

-- What its documentation says.
pub record IsHeaders (api : HeadersApi) : Type 0 where
  pub iter-empty : api.iter api.empty ≡ []
  pub iter-clear : (h : api.Headers) → api.iter (api.clear h) ≡ []
  pub iter-append :
      (h : api.Headers) (name value : Bytes)
      → IsField (name, value)
      → (h' : api.Headers) × (api.append h name value ≡ some h')
        × (api.iter h' ≡ api.iter h ++ (name, value) ∷ [])

pub data Method : Type 0 where
  get head : Method
  other : Bytes → Method

pub record Request : Type 0 where
  pub path : Bytes
  pub method : Method
  pub has_body : Bool

-- `heph_http::server::RequestError` or a deadline that passed: what the actor asks of it.
pub record ReadError : Type 0 where
  pub proper_status_code : ℕ
  pub should_close : Bool
  pub display : Bytes

-- What waiting for the next request gives.
pub data Next : Type 0 where
  request : Request → Next
  no_more : Next
  failed : ReadError → Next

abbrev pub read_timeout : ℕ
read_timeout = 10

abbrev pub alive_timeout : ℕ
alive_timeout = 120

abbrev pub write_timeout : ℕ
write_timeout = 10

-- The arguments of `connection.respond`.
pub record Reply : Type 0 where
  pub code : ℕ
  pub fields : List Field
  pub body : Bytes

pub data Ending : Type 0 where
  waiting : Ending  -- for a request that has not come
  returned_ok : Ending
  returned_err : Ending
  panicked : Ending

-- What one run of the actor does: how long it waited for each request, and what it sent.
pub record Run : Type 0 where
  pub waits : List ℕ
  pub replies : List Reply
  pub ending : Ending

abbrev pub is_get_or_head : Method → Bool
is_get_or_head get = true
is_get_or_head head = true
is_get_or_head (other m) = false

module _ (api : HeadersApi) where
  open api use {Headers}

  -- The code, the body and `should_close`, and the headers so far; `none` if `append` panics.
  unfoldable pub answer_request : Headers → Request → Option (ℕ × Bytes × Bool × Headers)
  answer_request headers r =
      if not (eq_bytes r.path (bytes "/"))
      then some (404, bytes "Not found", false, headers)
      else if not (is_get_or_head r.method)
      then elim (api.append headers (bytes "allow") (bytes "GET, HEAD")) [
        | none ↦ none
        | some headers' ↦ some (405, bytes "Method not allowed", false, headers')
      ]
      else if r.has_body
      then some (413, bytes "Not expecting a body", true, headers)
      else some (200, bytes "Hello, world!\n", false, headers)

  unfoldable pub answer_error : Headers → ReadError → Option (ℕ × Bytes × Bool × Headers)
  answer_error headers e =
      some (e.proper_status_code, bytes "Bad request: " ++ e.display, e.should_close, headers)

  -- The fields that every reply gets.
  unfoldable pub finish_headers : Bool → Headers → Option Headers
  finish_headers should_close headers = elim (api.append headers (bytes "server") (bytes "heph")) [
    | none ↦ none
    | some headers' ↦
        if should_close
        then api.append headers' (bytes "connection") (bytes "close")
        else some headers'
  ]

  -- `wait` for the next request, and then go on as `run` says.
  abbrev after_wait : ℕ → Run → Run
  after_wait wait run = record run { waits = wait ∷ run.waits }

  abbrev ends : Ending → Run
  ends e = record { waits = []; replies = []; ending = e }

  -- The rest of the loop's body once there is an answer: `wrote` tells whether the reply was
  -- written in time, and `rest` is the next round, from the headers that are cleared.
  unfoldable pub send_reply :
      Option (ℕ × Bytes × Bool × Headers) → (wrote : Bool) → (Headers → Run) → Run
  unfolding finish_headers
  send_reply none wrote rest = ends panicked
  send_reply (some (code, body, should_close, headers)) wrote rest =
      elim (finish_headers should_close headers) [
        | none ↦ ends panicked
        | some full ↦
            let reply : Reply = record { code = code; fields = api.iter full; body = body } in
            let next : Run =
              if not wrote
              then ends returned_err
              else if should_close
              then ends returned_ok
              else rest (api.clear full) in
            record next { replies = reply ∷ next.replies }
      ]

  -- The loop, over what the connection does: what each wait for a request gives, and whether the
  -- reply to it is written.
  unfoldable pub actor_loop : List (Next × Bool) → ℕ → Headers → Run
  unfolding send_reply answer_request answer_error
  actor_loop [] timeout headers = after_wait timeout (ends waiting)
  actor_loop ((no_more, wrote) ∷ later) timeout headers = after_wait timeout (ends returned_ok)
  actor_loop ((request r, wrote) ∷ later) timeout headers =
      after_wait timeout
        (send_reply (answer_request headers r) wrote (λ h. actor_loop later alive_timeout h))
  actor_loop ((failed e, wrote) ∷ later) timeout headers =
      after_wait timeout
        (send_reply (answer_error headers e) wrote (λ h. actor_loop later alive_timeout h))

  -- The actor: it returns an error at once if the peer's address cannot be had.
  unfoldable pub http_actor : (peer_addr : Bool) → List (Next × Bool) → Run
  unfolding actor_loop
  http_actor peer_addr events =
      if peer_addr then actor_loop events read_timeout api.empty else ends returned_err

-- `SupervisorStrategy`
pub data SupervisorStrategy : Type 0 where
  restart stop : SupervisorStrategy

-- `ServerSupervisor::decide` and `decide_on_restart_error`, whatever the error.
abbrev decide : Bytes → SupervisorStrategy
decide err = restart

abbrev decide_on_restart_error : Bytes → SupervisorStrategy
decide_on_restart_error err = restart

abbrev conn_supervisor : Bytes → SupervisorStrategy
conn_supervisor err = stop
