-- ===== src/Tokio/Process.antt =====
-- `process` and `respond` of origin-tokio/src/main.rs: one connection, from its first request to
-- its end.
pub mod Sample
pub mod Transport
pub mod Ends
pub mod Requests
pub mod Answers
pub mod Client
mod Tests
use benchmark_reverse_proxie.Common.{ℕ, Bool, true, false, List, [], ◌∷◌, Option, none, some}
use benchmark_reverse_proxie.Common.Bytes.{Bytes, bytes}
use benchmark_reverse_proxie.Toysync.Date.{SystemTime, LastRenderedNow}
use benchmark_reverse_proxie.Tokio.Decode.{Request, Error}
use benchmark_reverse_proxie.Tokio.Encode.{Item}

-- The builder of the crate http: `Response::builder()`, `header` and `body`; an error shows in
-- `body`.
pub record ResponseApi : Type 1 where
  pub Builder : Type 0
  pub builder : Builder
  pub header : Builder → Bytes → Bytes → Builder
  pub body : Builder → Bytes → Option Item

-- What `transport.next()` gives: the end, a request, or an error, of the decoder or of the socket.
pub data Next : Type 0 where
  no_more : Next
  request : Request → Next
  refused : Error → Next
  broken : Next

-- Where and when a response is encoded: the date cache of the thread that runs the task then, and
-- the clock.
pub record Tick : Type 0 where
  pub cache : LastRenderedNow
  pub now : SystemTime

-- `Framed<TcpStream, Http>` of tokio_util: `send` tells whether it succeeded.
pub record TransportApi : Type 1 where
  pub Transport : Type 0
  pub next : Transport → Next × Transport
  pub send : Item → Tick → Transport → Bool × Transport

-- How `process` returns: `Ok`, or the error of the decoder, of the socket, or of `respond`.
pub data Outcome : Type 0 where
  finished : Outcome
  refused : Error → Outcome
  broken : Outcome
  no_response : Outcome

module _ (api : ResponseApi) where
  unfoldable pub respond : Request → Option Item
  respond req =
      api.body (api.header api.builder (bytes "Content-Type") (bytes "text/plain"))
        (bytes "Hello, World!\n")

  module _ (tr : TransportApi) where
    open tr use {Transport}

    -- `transport.send(response).await?`, and the next round.
    sent :
        (Transport → Option (Outcome × Transport)) → Bool × Transport → Option (Outcome × Transport)
    sent go (true, t) = go t
    sent go (false, t) = some (broken, t)

    -- `respond(request).await?`
    answered :
        (Transport → Option (Outcome × Transport))
        → Tick
        → Option Item
        → Transport
        → Option (Outcome × Transport)
    unfolding sent
    answered go tick none t = some (no_response, t)
    answered go tick (some response) t = sent go (tr.send response tick t)

    -- One round of the loop, on what `next` gave.
    round :
        (Transport → Option (Outcome × Transport))
        → Tick
        → Next × Transport
        → Option (Outcome × Transport)
    unfolding answered respond
    round go tick (no_more, t) = some (finished, t)
    round go tick (request r, t) = answered go tick (respond r) t
    round go tick (refused e, t) = some (refused e, t)
    round go tick (broken, t) = some (broken, t)

    -- The loop, a tick for each round; `none` if the ticks do not suffice.
    unfoldable pub process : List Tick → Transport → Option (Outcome × Transport)
    unfolding round
    process [] t = none
    process (tick ∷ later) t = round (λ s. process later s) tick (tr.next t)
