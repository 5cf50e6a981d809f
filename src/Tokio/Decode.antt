-- ===== src/Tokio/Decode.antt =====
-- `Decoder::decode` of origin-tokio/src/main.rs.
pub mod Slices
pub mod Complete
pub mod Total
pub mod Stream
pub mod Sample
mod Tests
use benchmark_reverse_proxie.Common.{
  ℕ, zero, suc, ◌+◌, ◌-◌, ◌%◌, ◌^◌, Bool, true, false, not, ◌&&◌, List, [], ◌∷◌, Option, none, some,
  length, take, drop, ltb, leb, ◌==◌, if◌then◌else◌,
}
use benchmark_reverse_proxie.Common.Bytes.{Bytes}

-- A `&[u8]`: the address of its first byte and its length.
pub record Slice : Type 0 where
  pub ptr : ℕ
  pub len : ℕ

-- What `httparse::Request` holds after a parse, and the status of the parse.
pub record Parsed : Type 0 where
  pub method : Option Bytes
  pub path : Option Slice
  pub version : Option ℕ
  pub headers : List (Slice × Slice)

pub data Status : Type 0 where
  complete : (amt : ℕ) → Parsed → Status
  partial : Status
  failed : (message : Bytes) → Status

-- The crates: what `httparse::Request::parse` answers on a buffer at an address, and which texts
-- the types of the crate http accept.
pub record Crates : Type 0 where
  pub parse : (base : ℕ) → Bytes → Status
  pub is_method : Bytes → Bool
  pub is_uri : Bytes → Bool
  pub is_name : Bytes → Bool
  pub is_value : Bytes → Bool

-- An `http::Request<()>` of version HTTP/1.1: what the builder was given, in order.
pub record Request : Type 0 where
  pub method : Bytes
  pub uri : Bytes
  pub headers : List (Bytes × Bytes)

pub data Error : Type 0 where
  parse_error : (message : Bytes) → Error
  bad_method only_http11 header_decode bad_request : Error

pub data Decoded {ℓ} (A : Type ℓ) : Type ℓ where
  ok : A → Decoded A
  err : Error → Decoded A
  panicked : Decoded A

infixl 10 ◌>>=◌ ◌>>◌
abbrev pub ◌>>=◌ {ℓ κ} : {A : Type ℓ} {B : Type κ} → Decoded A → (A → Decoded B) → Decoded B
ok a >>= f = f a
err e >>= f = err e
panicked >>= f = panicked

abbrev pub ◌>>◌ {ℓ} : {B : Type ℓ} → Decoded (Unit {0}) → Decoded B → Decoded B
m >> n = m >>= λ _. n

abbrev pub guard : Bool → Error → Decoded (Unit {0})
guard true e = ok tt
guard false e = err e

abbrev pub assert : Bool → Decoded (Unit {0})
assert true = ok tt
assert false = panicked

abbrev pub unwrap {ℓ} : {A : Type ℓ} → Option A → Decoded A
unwrap none = panicked
unwrap (some a) = ok a

-- `usize` wraps in a release build.
abbrev usize : ℕ
usize = 2 ^ 64

-- The closure `toslice`: where a slice starts and ends, counted from the start of `src`.
unfoldable pub toslice : (base : ℕ) → Bytes → Slice → Decoded (ℕ × ℕ)
toslice base src a = do
  let start = (a.ptr + usize - base) % usize
  assert (ltb start (length src))
  ok (start, (start + a.len) % usize)

-- `headers[i] = Some((k, v))`, for the index `i` from `enumerate`, in an array of 16: `room` is
-- what is left of it.
unfoldable pub header_slices :
    (room base : ℕ) → Bytes → List (Slice × Slice) → Decoded (List ((ℕ × ℕ) × (ℕ × ℕ)))
header_slices room base src [] = ok []
header_slices zero base src ((name, value) ∷ hs) = do
  k ← toslice base src name
  v ← toslice base src value
  panicked
header_slices (suc room) base src ((name, value) ∷ hs) = do
  k ← toslice base src name
  v ← toslice base src value
  rest ← header_slices room base src hs
  ok ((k, v) ∷ rest)

-- `data.slice(a..b)` and `&data[a..b]`.
unfoldable pub slice : Bytes → ℕ × ℕ → Decoded Bytes
slice text (a, b) =
    if leb a b && leb b (length text) then ok (take (b - a) (drop a text)) else panicked

-- What the first block of `decode` gives, with the method converted.
pub record Head : Type 0 where
  pub method : Bytes
  pub path : ℕ × ℕ
  pub amt : ℕ
  pub headers : List ((ℕ × ℕ) × (ℕ × ℕ))

module _ (crates : Crates) where
  -- Up to the test of the version.
  complete_head : (base : ℕ) → Bytes → (amt : ℕ) → Parsed → Decoded Head
  complete_head base src amt r = do
    headers ← header_slices 16 base src r.headers
    method ← unwrap r.method
    guard (crates.is_method method) bad_method
    path_text ← unwrap r.path
    path ← toslice base src path_text
    version ← unwrap r.version
    guard (version == 1) only_http11
    ok (record { method = method; path = path; amt = amt; headers = headers })

  -- `return Ok(None)` on a partial request.
  head : (base : ℕ) → Bytes → Status → Decoded (Option Head)
  unfolding complete_head
  head base src (failed message) = err (parse_error message)
  head base src partial = ok none
  head base src (complete amt r) = do h ← complete_head base src amt r; ok (some h)

  -- The second loop over the headers. A name that the builder refuses shows only in `body`.
  fields : Bytes → List ((ℕ × ℕ) × (ℕ × ℕ)) → Decoded (List (Bytes × Bytes))
  fields text [] = ok []
  fields text ((k, v) ∷ hs) = do
    value ← slice text v
    guard (crates.is_value value) header_decode
    name ← slice text k
    rest ← fields text hs
    ok ((name, value) ∷ rest)

  unfoldable pub all_names : List (Bytes × Bytes) → Bool
  all_names [] = true
  all_names ((k, v) ∷ hs) = crates.is_name k && all_names hs

  request : Bytes → Head → Decoded Request
  unfolding fields all_names
  request text h = do
    uri ← slice text h.path
    headers ← fields text h.headers
    guard (crates.is_uri uri && all_names headers) bad_request
    ok (record { method = h.method; uri = uri; headers = headers })

  -- `src.split_to(amt)` takes the request off the buffer; it panics past the end.
  finish : Bytes → Decoded (Option Head) → Decoded (Option Request) × Bytes
  unfolding request
  finish src (err e) = (err e, src)
  finish src panicked = (panicked, src)
  finish src (ok none) = (ok none, src)
  finish src (ok (some h)) =
      if leb h.amt (length src)
      then (do r ← request (take h.amt src) h; ok (some r), drop h.amt src)
      else (panicked, src)

  -- The result, and what is left in `src`.
  unfoldable pub decode : (base : ℕ) → Bytes → Decoded (Option Request) × Bytes
  unfolding head finish
  decode base src = finish src (head base src (crates.parse base src))
