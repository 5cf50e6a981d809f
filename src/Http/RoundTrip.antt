-- ===== src/Http/RoundTrip.antt =====
-- A response that is printed is read back, whatever follows it.
use benchmark_reverse_proxie.Common.{
  ℕ, zero, suc, ◌≤◌, ◌<◌, ◌≡◌, ◌≢◌, refl, List, [], ◌∷◌, ◌++◌, some, arith, length, le→leb, All,
  length-append, take-append, drop-append, append_assoc, All-append,
}
use benchmark_reverse_proxie.Common.Bytes.{Bytes, bytes}
use benchmark_reverse_proxie.Common.Bytes.Decimal.{decimal, read_decimal-decimal, decimal-IsDigits}
use benchmark_reverse_proxie.Http.{
  Field, Response, crlf, colon, print_fields, print_response, split_line, split_field, read_fields,
  field_value, read_response,
}

-- A text that stays on its line.
abbrev pub IsLine : Bytes → Type 0
IsLine = All (λ c. c ≢ 13)

-- The name of a field, which is not empty and has no colon.
abbrev pub IsName : Bytes → Type 0
IsName [] = ⊥
IsName (c ∷ cs) = All (λ b. (b ≢ 13) × (b ≢ 58)) (c ∷ cs)

abbrev pub IsField : Field → Type 0
IsField (k, v) = IsName k × IsLine v

split_line-crlf : (l rest : Bytes) → IsLine l → split_line (l ++ (crlf ++ rest)) ≡ some (l, rest)
unfolding split_line
split_line-crlf [] rest h = refl
split_line-crlf (c ∷ []) rest h = ground (arith, split_line-crlf [] rest tt)
split_line-crlf (c ∷ d ∷ l) rest h = ground (arith, split_line-crlf (d ∷ l) rest h.1)

split_field-colon :
    (k v : Bytes) → All (λ b. (b ≢ 13) × (b ≢ 58)) k → split_field (k ++ (colon ++ v)) ≡ some (k, v)
unfolding split_field
split_field-colon [] v h = refl
split_field-colon (c ∷ []) v h = ground (arith, split_field-colon [] v tt)
split_field-colon (c ∷ d ∷ k) v h = ground (arith, split_field-colon (d ∷ k) v h.1)

name-IsLine : (k : Bytes) → All (λ b. (b ≢ 13) × (b ≢ 58)) k → IsLine k
name-IsLine [] h = tt
name-IsLine (c ∷ k) h = (h.0.0, name-IsLine k h.1)

field-IsLine :
    (k v : Bytes) → All (λ b. (b ≢ 13) × (b ≢ 58)) k → IsLine v → IsLine (k ++ (colon ++ v))
field-IsLine k v hk hv =
    All-append (λ c. c ≢ 13) k (colon ++ v) (name-IsLine k hk) (omega arith, (omega arith, hv))

split_line-field :
    (k v rest : Bytes)
    → All (λ b. (b ≢ 13) × (b ≢ 58)) k
    → IsLine v
    → split_line (k ++ (colon ++ (v ++ (crlf ++ rest)))) ≡ some (k ++ (colon ++ v), rest)
split_line-field k v rest hk hv =
    rw (← append_assoc k (colon ++ v) (crlf ++ rest))
      (split_line-crlf (k ++ (colon ++ v)) rest (field-IsLine k v hk hv))

read_fields-print :
    (fuel : ℕ) (fs : List Field) (rest : Bytes)
    → All IsField fs
    → length fs < fuel
    → read_fields fuel (print_fields fs rest) ≡ some (fs, rest)
unfolding read_fields
read_fields-print zero fs rest h lt = absurd (omega arith)
read_fields-print (suc fuel) [] rest h lt = rw (split_line-crlf [] rest tt)
read_fields-print (suc fuel) (([], v) ∷ fs) rest h lt = absurd h.0.0
read_fields-print (suc fuel) ((c ∷ cs, v) ∷ fs) rest h lt = rw (
  split_line-field (c ∷ cs) v (print_fields fs rest) h.0.0 h.0.1,
  split_field-colon (c ∷ cs) v h.0.0,
  read_fields-print fuel fs rest h.1 (omega arith),
)

length-print_fields : (fs : List Field) (rest : Bytes) → length fs < length (print_fields fs rest)
length-print_fields [] rest = omega arith
length-print_fields ((k, v) ∷ fs) rest = omega (
  arith,
  length-print_fields fs rest,
  length-append k (colon ++ (v ++ (crlf ++ print_fields fs rest))),
  length-append v (crlf ++ print_fields fs rest),
)

-- A response that can be sent: its lines are lines, and its first Content-Length is its body's
-- length.
pub record IsFramed (r : Response) : Type 0 where
  pub status : IsLine r.status
  pub fields : All IsField r.fields
  pub content_length :
      field_value (bytes "content-length") r.fields ≡ some (decimal (length r.body))

pub read_response-print :
    (r : Response) (rest : Bytes)
    → IsFramed r
    → read_response (print_response r rest) ≡ some (r, rest)
unfolding read_response
read_response-print r rest h = rw (
  split_line-crlf r.status (print_fields r.fields (r.body ++ rest)) h.status,
  read_fields-print (length (print_fields r.fields (r.body ++ rest))) r.fields (r.body ++ rest)
      h.fields (length-print_fields r.fields (r.body ++ rest)),
  h.content_length,
  read_decimal-decimal (length r.body),
  le→leb (length r.body) (length (r.body ++ rest)) (omega (arith, length-append r.body rest)),
  take-append r.body rest,
  drop-append r.body rest,
)

digits-IsLine : (xs : Bytes) → All (λ c. 48 ≤ c) xs → IsLine xs
digits-IsLine [] h = tt
digits-IsLine (x ∷ xs) h = (omega (arith, h.0), digits-IsLine xs h.1)

-- A number is a line.
pub decimal-IsLine : (n : ℕ) → IsLine (decimal n)
decimal-IsLine n = digits-IsLine (decimal n) (decimal-IsDigits n)
