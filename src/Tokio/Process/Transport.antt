-- ===== src/Tokio/Process/Transport.antt =====
-- What `process` relies on: the documentation of the crates tokio_util and http.
use benchmark_reverse_proxie.Common.{
  ℕ, Bool, ◌&&◌, ◌||◌, leb, ◌==◌, ◌+◌, ◌^◌, ◌<◌, ◌≡◌, true, false, List, [], ◌∷◌, ◌++◌, Option,
  none, some, length,
}
use benchmark_reverse_proxie.Common.Bytes.{Bytes, bytes}
use benchmark_reverse_proxie.Common.Exec.{done}
use benchmark_reverse_proxie.Http.{Field, lower}
use benchmark_reverse_proxie.Toysync.Date.{SystemTime}
use benchmark_reverse_proxie.Tokio.Decode.{Crates, ok, err, decode}
use benchmark_reverse_proxie.Tokio.Encode.{Item, encode}
use benchmark_reverse_proxie.Tokio.Process.{
  ResponseApi, Next, no_more, request, refused, broken, Tick, TransportApi,
}

abbrev pub every : (ℕ → Bool) → Bytes → Bool
every test [] = true
every test (c ∷ cs) = test c && every test cs

-- A name of letters and dashes, and a value of visible characters and spaces: no more is asked here
-- of what the crate http takes as a name and a value.
abbrev pub plain : Bytes → Bytes → Bool
plain [] value = false
plain (c ∷ cs) value =
    every (λ b. (leb 65 b && leb b 90) || ((leb 97 b && leb b 122) || b == 45)) (c ∷ cs)
    && every (λ b. leb 32 b && leb b 126) value

-- The builder starts at `200 OK` without fields, and collects them; names are put in lower case. It
-- has no fields left (`none`) once it was given a part that is not valid, and then `body` gives the
-- error.
pub record IsBuilder (api : ResponseApi) : Type 0 where
  pub fields : api.Builder → Option (List Field)
  pub fields-builder : fields api.builder ≡ some []
  pub fields-header :
      (b : api.Builder) (name value : Bytes) (before : List Field)
      → fields b ≡ some before
      → plain name value ≡ true
      → fields (api.header b name value) ≡ some (before ++ (lower name, value) ∷ [])
  pub body_made :
      (b : api.Builder) (text : Bytes) (all : List Field)
      → fields b ≡ some all
      → api.body b text ≡ some (record { status = bytes "200 OK"; headers = all; body = text })
  pub body_refused : (b : api.Builder) (text : Bytes) → fields b ≡ none → api.body b text ≡ none

-- What is left to read after `next` gave something, from what there was. The decoder is asked when
-- more bytes have come, in whatever portions, and sees the ones that it has not taken, at some
-- address.
module _ (crates : Crates) where
  abbrev pub Gives : Bytes → Next → Bytes → Type 0
  Gives before (request r) after =
      (base : ℕ) × (seen unseen rest : Bytes) × (before ≡ seen ++ unseen)
      × (base + length seen < 2 ^ 64)
      × (decode crates base seen ≡ (ok (some r), rest))
      × (after ≡ rest ++ unseen)
  Gives before (refused e) after =
      (base : ℕ) × (seen unseen rest : Bytes) × (before ≡ seen ++ unseen)
      × (base + length seen < 2 ^ 64)
      × (decode crates base seen ≡ (err e, rest))
  Gives before no_more after = before ≡ []
  Gives before broken after = Unit

-- `unread` is what the client sends on the connection and the decoder has not taken, and `written`
-- what the client has been sent.
pub record IsTransport (crates : Crates) (http_date : SystemTime → Option (List Bytes))
    (tr : TransportApi) : Type 0 where
  pub unread : tr.Transport → Bytes
  pub written : tr.Transport → Bytes
  pub next_gives : (t : tr.Transport) → Gives crates (unread t) (tr.next t).0 (unread (tr.next t).1)
  pub written-next : (t : tr.Transport) → written (tr.next t).1 ≡ written t
  pub unread-send :
      (item : Item) (tick : Tick) (t : tr.Transport) → unread (tr.send item tick t).1 ≡ unread t
  -- a response that was encoded is written whole, or an error tells that it was not
  pub send_writes :
      (item : Item) (tick : Tick) (t : tr.Transport)
      → let out = encode http_date item tick.now (record { dst = []; cache = tick.cache }) in
        out.0 ≡ done tt
        → (tr.send item tick t).0 ≡ true
        → written (tr.send item tick t).1 ≡ written t ++ out.1.dst
  pub send_breaks :
      (item : Item) (tick : Tick) (t : tr.Transport)
      → let out = encode http_date item tick.now (record { dst = []; cache = tick.cache }) in
        out.0 ≡ done tt
        → (tr.send item tick t).0 ≡ false
        → (part unsent : Bytes) × (out.1.dst ≡ part ++ unsent)
          × (written (tr.send item tick t).1 ≡ written t ++ part)
