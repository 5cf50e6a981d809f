-- ===== src/Tokio/Process/Sample.antt =====
-- A builder of responses that keeps a list of fields, and a connection on which nothing breaks.
use benchmark_reverse_proxie.Common.{
  ℕ, ◌+◌, ◌^◌, ◌<◌, ◌≡◌, refl, sym, true, false, List, [], ◌∷◌, ◌++◌, append-nil, Option, none,
  some, length, arith, ltb, ltb→lt, zero, suc, replicate, All, Bool-cases, inl, inr, if◌then◌else◌,
  flatten,
}
use benchmark_reverse_proxie.Common.Bytes.{Bytes, bytes}
use benchmark_reverse_proxie.Http.{Field, lower}
use benchmark_reverse_proxie.Toysync.Date.{last}
use benchmark_reverse_proxie.Toysync.Date.Cache.{last-IsCoherent}
use benchmark_reverse_proxie.Toysync.Date.Clock.{http_date, render, rendering, second_three}
use benchmark_reverse_proxie.Tokio.Decode.{Request, Decoded, ok, err, panicked, decode}
use benchmark_reverse_proxie.Tokio.Decode.Sample.{crates, crates-IsStable}
use benchmark_reverse_proxie.Tokio.Encode.{Item, encode}
use benchmark_reverse_proxie.Tokio.Process.{
  ResponseApi, Next, no_more, request, refused, broken, Tick, TransportApi,
}
use benchmark_reverse_proxie.Tokio.Process.Transport.{plain, IsBuilder, Gives, IsTransport}
use benchmark_reverse_proxie.Tokio.Process.Answers.{IsGoodTick}

-- Only a plain field is taken, and none after another.
abbrev with_field : Option (List Field) → Bytes → Bytes → Option (List Field)
with_field none name value = none
with_field (some before) name value =
    if plain name value then some (before ++ (lower name, value) ∷ []) else none

abbrev with_body : Option (List Field) → Bytes → Option Item
with_body none text = none
with_body (some all) text = some (record { status = bytes "200 OK"; headers = all; body = text })

abbrev pub api : ResponseApi
api = record {
  Builder = Option (List Field);
  builder = some [];
  header = λ b name value. with_field b name value;
  body = λ b text. with_body b text;
}

pub api-IsBuilder : IsBuilder api
api-IsBuilder = record {
  fields = λ b. b;
  fields-builder = refl;
  fields-header = λ b name value before e f. rw (e, f);
  body_made = λ b text all e. rw e;
  body_refused = λ b text e. rw e;
}

-- What the client sends and has not been read, and what it was sent.
abbrev pub Connection : Type 0
Connection = Bytes × Bytes

abbrev gives : Connection → Decoded (Option Request) × Bytes → Next × Connection
gives (u, w) (ok (some r), rest) = (request r, (rest, w))
gives ([], w) (ok none, rest) = (no_more, ([], w))
gives (c ∷ u, w) (ok none, rest) = (broken, (c ∷ u, w))
gives (u, w) (err e, rest) = (refused e, (rest, w))
gives (u, w) (panicked, rest) = (broken, (u, w))

-- All that is there is read at once.
abbrev pub transport : TransportApi
transport = record {
  Transport = Connection;
  next = λ t. if ltb (length t.0) 1000 then gives t (decode crates 4096 t.0) else (broken, t);
  send = λ item tick t. (
    true,
    (t.0, t.1 ++ (encode http_date item tick.now (record { dst = []; cache = tick.cache })).1.dst),
  );
}

gives-Gives :
    (t : Connection) (a : Decoded (Option Request) × Bytes)
    → 4096 + length t.0 < 2 ^ 64
    → decode crates 4096 t.0 ≡ a
    → Gives crates t.0 (gives t a).0 (gives t a).1.0 × ((gives t a).1.1 ≡ t.1)
gives-Gives (u, w) (ok (some r), rest) room e =
    ((4096, u, [], rest, sym (append-nil u), room, e, sym (append-nil rest)), refl)
gives-Gives ([], w) (ok none, rest) room e = (refl, refl)
gives-Gives (c ∷ u, w) (ok none, rest) room e = (tt, refl)
gives-Gives (u, w) (err x, rest) room e = ((4096, u, [], rest, sym (append-nil u), room, e), refl)
gives-Gives (u, w) (panicked, rest) room e = (tt, refl)

pub next_holds :
    (t : Connection)
    → Gives crates t.0 (transport.next t).0 (transport.next t).1.0 × ((transport.next t).1.1 ≡ t.1)
next_holds t = elim (Bool-cases (ltb (length t.0) 1000)) [
  | inl short ↦
      let less = ltb→lt (length t.0) 1000 short in
      rw short (gives-Gives t (decode crates 4096 t.0) (omega (arith, less)) refl)
  | inr long ↦ rw long (tt, refl)
]

pub never {ℓ} : {A : Type ℓ} → true ≡ false → A
never e = cc

abbrev pub laws : IsTransport crates http_date transport
laws = record {
  unread = λ t. t.0;
  written = λ t. t.1;
  next_gives = λ t. (next_holds t).0;
  written-next = λ t. (next_holds t).1;
  unread-send = λ item tick t. refl;
  send_writes = λ item tick t printed whole. refl;
  send_breaks = λ item tick t printed cut. never cut;
}

abbrev pub tick : Tick
tick = record { cache = last; now = second_three }

pub ticks-IsGoodTick :
    (n : ℕ)
    → All
        (λ t.
          IsGoodTick api api-IsBuilder crates crates-IsStable http_date 10 render rendering
            transport laws t)
        (replicate n tick)
unfolding flatten
ticks-IsGoodTick zero = tt
ticks-IsGoodTick (suc n) = ((last-IsCoherent render, omega arith, omega arith), ticks-IsGoodTick n)
