-- ===== src/Http.antt =====
-- An HTTP/1.1 response as its sender and its receiver see it. The servers under origin-* write
-- their responses by hand as texts; `read_response` is an independent description of what a client
-- makes of such a text: a status line, header lines up to an empty line, and a body that is as long
-- as the first Content-Length says.
pub mod RoundTrip
pub mod Headers
use benchmark_reverse_proxie.Common.{
  ℕ, zero, suc, ◌+◌, Bool, true, false, ◌&&◌, ◌||◌, List, [], ◌∷◌, ◌++◌, Option, none, some, length,
  take, drop, leb, ◌==◌, if◌then◌else◌,
}
use benchmark_reverse_proxie.Common.Bytes.{Bytes, bytes}
use benchmark_reverse_proxie.Common.Bytes.Decimal.{read_decimal}

abbrev pub Field : Type 0
Field = Bytes × Bytes

pub record Response : Type 0 where
  pub status : Bytes
  pub fields : List Field
  pub body : Bytes

abbrev pub crlf : Bytes
crlf = bytes "\r\n"

abbrev pub colon : Bytes
colon = bytes ": "

-- The text of the header lines, with the empty line that ends them.
abbrev pub print_fields : List Field → Bytes → Bytes
print_fields [] rest = crlf ++ rest
print_fields ((k, v) ∷ fs) rest = k ++ (colon ++ (v ++ (crlf ++ print_fields fs rest)))

abbrev pub print_response : Response → Bytes → Bytes
print_response r rest = r.status ++ (crlf ++ print_fields r.fields (r.body ++ rest))

-- Put a byte in front of the first line.
abbrev onto : ℕ → Option (Bytes × Bytes) → Option (Bytes × Bytes)
onto c none = none
onto c (some (line, rest)) = some (c ∷ line, rest)

-- Up to the first CR LF, and what follows it; `none` if there is none.
pub split_line : Bytes → Option (Bytes × Bytes)
split_line [] = none
split_line (c ∷ []) = none
split_line (c ∷ d ∷ bs) =
    let rest = split_line (d ∷ bs) in if c == 13 && d == 10 then some ([], bs) else onto c rest

-- `name: value`
pub split_field : Bytes → Option Field
split_field [] = none
split_field (c ∷ []) = none
split_field (c ∷ d ∷ bs) =
    let rest = split_field (d ∷ bs) in if c == 58 && d == 32 then some ([], bs) else onto c rest

infixl 10 ◌>>=◌
abbrev pub ◌>>=◌ : {A B : Type 0} → Option A → (A → Option B) → Option B
none >>= f = none
some a >>= f = f a

-- The header lines up to the empty line.
pub read_fields : ℕ → Bytes → Option (List Field × Bytes)
read_fields zero bs = none
read_fields (suc fuel) bs = split_line bs >>= λ l. elim l.0 [
  | [] ↦ some ([], l.1)
  | c ∷ cs ↦ do f ← split_field (c ∷ cs); fs ← read_fields fuel l.1; some (f ∷ fs.0, fs.1)
]

unfoldable pub lower : Bytes → Bytes
lower [] = []
lower (c ∷ cs) = (if leb 65 c && leb c 90 then c + 32 else c) ∷ lower cs

unfoldable pub eq_bytes : Bytes → Bytes → Bool
eq_bytes [] [] = true
eq_bytes (a ∷ as') (b ∷ bs) = a == b && eq_bytes as' bs
eq_bytes _ _ = false

-- The first field of that name, whatever the case of its letters.
unfoldable pub field_value : Bytes → List Field → Option Bytes
unfolding lower eq_bytes
field_value name [] = none
field_value name ((k, v) ∷ fs) =
    if eq_bytes (lower k) (lower name) then some v else field_value name fs

-- The response at the front of a text, and what follows it. Each line takes two bytes or more, so
-- the text's length is fuel enough.
unfoldable pub read_response : Bytes → Option (Response × Bytes)
unfolding split_line split_field read_fields read_decimal
read_response bs = do
  l ← split_line bs
  h ← read_fields (length l.1) l.1
  v ← field_value (bytes "content-length") h.0
  n ← read_decimal v
  if leb n (length h.1)
      then some (record { status = l.0; fields = h.0; body = take n h.1 }, drop n h.1)
      else none

-- So many responses, one behind the other.
unfoldable pub read_all : ℕ → Bytes → Option (List Response × Bytes)
read_all zero bs = some ([], bs)
read_all (suc n) bs = do r ← read_response bs; rs ← read_all n r.1; some (r.0 ∷ rs.0, rs.1)

-- The answer to such a request ends with its fields, whatever they say of a body.
unfoldable pub bodiless : Bytes → Bool
unfolding eq_bytes
bodiless method = eq_bytes method (bytes "HEAD") || eq_bytes method (bytes "CONNECT")

pub read_head : Bytes → Option (Response × Bytes)
unfolding split_line split_field read_fields
read_head bs = do
  l ← split_line bs
  h ← read_fields (length l.1) l.1
  some (record { status = l.0; fields = h.0; body = [] }, h.1)

-- The responses to requests of these methods, one behind the other.
unfoldable pub read_answers : List Bytes → Bytes → Option (List Response × Bytes)
unfolding read_head
read_answers [] bs = some ([], bs)
read_answers (method ∷ methods) bs = do
  r ← if bodiless method then read_head bs else read_response bs
  rs ← read_answers methods r.1
  some (r.0 ∷ rs.0, rs.1)
