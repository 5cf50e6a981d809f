-- ===== src/Heph/Closing.antt =====
-- When origin-heph closes a connection, and how long it waits.
use benchmark_reverse_proxie.Common.{
  ℕ, ◌≡◌, ◌↔◌, refl, ap, Bool, true, false, List, [], ◌∷◌, Option, none, some, arith, All,
  if◌then◌else◌,
}
use mathlib.Core.Option
use mathlib.Core.List.{head?}
use benchmark_reverse_proxie.Common.Bytes.{Bytes, bytes}
use benchmark_reverse_proxie.Http.{eq_bytes, field_value}
use benchmark_reverse_proxie.Heph.{
  HeadersApi, IsHeaders, Request, ReadError, Next, request, no_more, failed, Reply, Run,
  read_timeout, alive_timeout, is_get_or_head, http_actor,
}
use benchmark_reverse_proxie.Heph.Conversation.{
  Answer, answer_to, answer_to_error, reply_of, then_reply, conversation, http_actor-conversation,
}

-- The client is told that the connection ends.
abbrev pub says_close : Reply → Option Bytes
says_close r = field_value (bytes "connection") r.fields

-- No reply but the last says that the connection ends.
abbrev pub OnlyLastCloses : List Reply → Type 0
OnlyLastCloses [] = Unit
OnlyLastCloses (r ∷ []) = Unit
OnlyLastCloses (r ∷ s ∷ rs) = (says_close r ≡ none) × OnlyLastCloses (s ∷ rs)

answer_to-says :
    (r : Request)
    → says_close (reply_of (answer_to r)) ≡ (if (answer_to r).2 then some (bytes "close") else none)
unfolding field_value
answer_to-says r = ground arith

answer_to_error-says :
    (e : ReadError)
    → says_close (reply_of (answer_to_error e))
      ≡ (if e.should_close then some (bytes "close") else none)
unfolding field_value
answer_to_error-says e = ground arith

closes_cons :
    (r : Reply) (rs : List Reply)
    → says_close r ≡ none
    → OnlyLastCloses rs
    → OnlyLastCloses (r ∷ rs)
closes_cons r [] h k = tt
closes_cons r (s ∷ rs) h k = (h, k)

then_reply-closes :
    (wait : ℕ) (a : Answer) (wrote : Bool) (r : Run)
    → says_close (reply_of a) ≡ (if a.2 then some (bytes "close") else none)
    → OnlyLastCloses r.replies
    → OnlyLastCloses (then_reply wait a wrote r).replies
then_reply-closes wait (code, body, close, own) false r h k = tt
then_reply-closes wait (code, body, true, own) true r h k = tt
then_reply-closes wait (code, body, false, own) true r h k =
    closes_cons (reply_of (code, body, false, own)) r.replies h k

conversation-closes :
    (wait : ℕ) (events : List (Next × Bool)) → OnlyLastCloses (conversation wait events).replies
unfolding conversation
conversation-closes wait [] = tt
conversation-closes wait ((no_more, wrote) ∷ later) = tt
conversation-closes wait ((request r, wrote) ∷ later) =
    then_reply-closes wait (answer_to r) wrote (conversation alive_timeout later) (answer_to-says r)
      (conversation-closes alive_timeout later)
conversation-closes wait ((failed e, wrote) ∷ later) =
    then_reply-closes wait (answer_to_error e) wrote (conversation alive_timeout later)
      (answer_to_error-says e) (conversation-closes alive_timeout later)

-- The first wait, and then waits for `ALIVE_TIMEOUT` only.
abbrev pub Waits : ℕ → List ℕ → Type 0
Waits wait ws = (later : List ℕ) × (ws ≡ wait ∷ later) × All (λ n. n ≡ alive_timeout) later

then_reply-Waits :
    (wait : ℕ) (a : Answer) (wrote : Bool) (r : Run)
    → Waits alive_timeout r.waits
    → Waits wait (then_reply wait a wrote r).waits
then_reply-Waits wait (code, body, close, own) false r h = ([], refl, tt)
then_reply-Waits wait (code, body, true, own) true r h = ([], refl, tt)
then_reply-Waits wait (code, body, false, own) true r (later, e, all) =
    (alive_timeout ∷ later, ap (λ l. wait ∷ l) e, (refl, all))

conversation-Waits :
    (wait : ℕ) (events : List (Next × Bool)) → Waits wait (conversation wait events).waits
unfolding conversation
conversation-Waits wait [] = ([], refl, tt)
conversation-Waits wait ((no_more, wrote) ∷ later) = ([], refl, tt)
conversation-Waits wait ((request r, wrote) ∷ later) =
    then_reply-Waits wait (answer_to r) wrote (conversation alive_timeout later)
      (conversation-Waits alive_timeout later)
conversation-Waits wait ((failed e, wrote) ∷ later) =
    then_reply-Waits wait (answer_to_error e) wrote (conversation alive_timeout later)
      (conversation-Waits alive_timeout later)

module _ (api : HeadersApi) (laws : IsHeaders api) where
  -- Where the peer's address is had: once a reply has said `connection: close`, the actor sends
  -- nothing more.
  pub http_actor-closes :
      (events : List (Next × Bool)) → OnlyLastCloses (http_actor api true events).replies
  http_actor-closes events =
      rw (http_actor-conversation api laws events) (conversation-closes read_timeout events)

  -- Where the peer's address is had: the first request is waited for ten seconds, and every later
  -- one a hundred and twenty.
  http_actor-Waits : (events : List (Next × Bool)) → Waits 10 (http_actor api true events).waits
  http_actor-Waits events =
      rw (http_actor-conversation api laws events) (conversation-Waits read_timeout events)

  -- Where the peer's address is had: a first request is answered by 200 exactly if it is a GET or a
  -- HEAD of `/` without a body.
  pub http_actor-ok_iff :
      (r : Request) (wrote : Bool) (later : List (Next × Bool))
      → (Option.map
            (λ (p : Reply). p.code)
            (head? (http_actor api true ((request r, wrote) ∷ later)).replies)
          ≡ some 200)
        ↔ ((eq_bytes r.path (bytes "/") ≡ true)
            × (is_get_or_head r.method ≡ true)
            × (r.has_body ≡ false))
  unfolding conversation
  http_actor-ok_iff r wrote later =
      rw (http_actor-conversation api laws ((request r, wrote) ∷ later)) (ground arith)
