-- ===== src/Heph/Tests.antt =====
-- A conversation of three requests, the last of which has a body.
use benchmark_reverse_proxie.Common.{◌≡◌, ◌↔◌, refl, Bool, true, false, List, [], ◌∷◌, ◌++◌, some}
use mathlib.Core.Option
use mathlib.Core.List.{head?}
use benchmark_reverse_proxie.Common.Bytes.{bytes}
use benchmark_reverse_proxie.Http.{Field, eq_bytes}
use benchmark_reverse_proxie.Heph.{
  HeadersApi, IsHeaders, get, other, Request, Next, request, Reply, http_actor, read_timeout,
  is_get_or_head,
}
use benchmark_reverse_proxie.Heph.Conversation.{conversation, http_actor-conversation}
use benchmark_reverse_proxie.Heph.Closing.{OnlyLastCloses, http_actor-closes, http_actor-ok_iff}

abbrev api : HeadersApi
api = record {
  Headers = List Field;
  empty = [];
  append = λ h name value. some (h ++ (name, value) ∷ []);
  clear = λ h. [];
  iter = λ h. h;
}

api-IsHeaders : IsHeaders api
api-IsHeaders = record {
  iter-empty = refl;
  iter-clear = λ h. refl;
  iter-append = λ h name value f. (h ++ (name, value) ∷ [], refl, refl);
}

abbrev root : Request
root = record { path = bytes "/"; method = get; has_body = false }

abbrev post : Request
post = record { path = bytes "/"; method = other (bytes "POST"); has_body = false }

abbrev upload : Request
upload = record { path = bytes "/"; method = get; has_body = true }

abbrev events : List (Next × Bool)
events =
    (request post, true) ∷ (request root, true) ∷ (request upload, true) ∷ (request root, true) ∷ []

-- The field `allow` of the first reply is gone from the second, and nothing follows the third.
three_replies :
    (http_actor api true events).replies
    ≡ (record {
      code = 405;
      fields = (bytes "allow", bytes "GET, HEAD") ∷ (bytes "server", bytes "heph") ∷ [];
      body = bytes "Method not allowed";
    })
      ∷ (record {
        code = 200;
        fields = (bytes "server", bytes "heph") ∷ [];
        body = bytes "Hello, world!\n";
      })
      ∷ (record {
        code = 413;
        fields = (bytes "server", bytes "heph") ∷ (bytes "connection", bytes "close") ∷ [];
        body = bytes "Not expecting a body";
      })
      ∷ []
unfolding http_actor eq_bytes
three_replies = refl

http_actor-conversation_example : http_actor api true events ≡ conversation read_timeout events
http_actor-conversation_example = http_actor-conversation api api-IsHeaders events

http_actor-closes_example : OnlyLastCloses (http_actor api true events).replies
http_actor-closes_example = http_actor-closes api api-IsHeaders events

http_actor-ok_iff_example :
    (Option.map
        (λ (p : Reply). p.code)
        (head? (http_actor api true ((request root, true) ∷ events)).replies)
      ≡ some 200)
    ↔ ((eq_bytes root.path (bytes "/") ≡ true)
        × (is_get_or_head root.method ≡ true)
        × (root.has_body ≡ false))
http_actor-ok_iff_example = http_actor-ok_iff api api-IsHeaders root true events
