-- ===== src/Http/Headers.antt =====
-- The maps of header fields that the servers and the proxies use: `HeaderMap` of the crate http,
-- and of actix. The names of their fields are in lower case.
pub mod Sample
use benchmark_reverse_proxie.Common.{
  ◌≡◌, refl, Bool, true, false, ◌&&◌, List, [], ◌∷◌, if◌then◌else◌, ◌==◌, Bool-cases, ==_iff, inl,
  inr,
}
use benchmark_reverse_proxie.Common.Bytes.{Bytes}
use benchmark_reverse_proxie.Http.{Field, eq_bytes}

-- `insert` is what both crates call so, and `insert_header` of a builder: it takes the place of the
-- values that the name had.
pub record HeadersApi : Type 1 where
  pub Headers : Type 0
  pub empty : Headers
  pub insert : Headers → Bytes → Bytes → Headers
  pub values : Headers → Bytes → List Bytes

-- What the documentation says.
pub record IsHeaders (api : HeadersApi) : Type 0 where
  pub values-empty : (name : Bytes) → api.values api.empty name ≡ []
  pub values-insert :
      (h : api.Headers) (k v name : Bytes)
      → api.values (api.insert h k v) name ≡ (if eq_bytes name k then v ∷ [] else api.values h name)

-- The values of a name among the fields of a message, in order.
unfoldable pub values_of : Bytes → List Field → List Bytes
values_of name [] = []
values_of name ((k, v) ∷ fs) =
    let rest = values_of name fs in if eq_bytes name k then v ∷ rest else rest

-- The last of some values only, or what there was before.
unfoldable pub latest : List Bytes → List Bytes → List Bytes
latest before [] = before
latest before (v ∷ vs) = latest (v ∷ []) vs

differs : (rest b : Bool) → b ≡ false → (b && rest) ≡ true → ⊥
differs rest true e h = cc
differs rest false e h = cc

pub eq_bytes_lem : (a b : Bytes) → eq_bytes a b ≡ true → a ≡ b
unfolding eq_bytes
eq_bytes_lem [] [] h = refl
eq_bytes_lem [] (b ∷ bs) h = cc
eq_bytes_lem (a ∷ as') [] h = cc
eq_bytes_lem (a ∷ as') (b ∷ bs) h = elim (Bool-cases (a == b)) [
  | inl same ↦ let ts = eq_bytes_lem as' bs (rw same at h) in let e = (==_iff a b).0 same in cc
  | inr differ ↦ absurd (differs (eq_bytes as' bs) (a == b) differ h)
]
