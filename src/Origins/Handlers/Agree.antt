-- ===== src/Origins/Handlers/Agree.antt =====
-- The answers of origin-actix, origin-ntex and origin-hyper, side by side.
use benchmark_reverse_proxie.Common.{
  ◌≡◌, refl, ap, ◌∙◌, false, List, [], ◌∷◌, if◌then◌else◌, Bool-cases, inl, inr,
}
use benchmark_reverse_proxie.Common.Bytes.{Bytes, bytes}
use benchmark_reverse_proxie.Http.{eq_bytes, lower}
use benchmark_reverse_proxie.Http.Headers.{HeadersApi, IsHeaders, eq_bytes_lem}
use benchmark_reverse_proxie.Origins.Handlers.{Response, actix_handler, ntex_handler, hello}

-- What a header map holds under each name, for a server of this name.
abbrev pub fields_of : Bytes → Bytes → List Bytes
fields_of server name =
    if eq_bytes name (bytes "content-type")
    then bytes "text/plain" ∷ []
    else if eq_bytes name (bytes "server")
    then server ∷ []
    else []

-- The answer that is meant, of a server of this name.
abbrev pub Greets : (api : HeadersApi) → Bytes → Response api → Type 0
Greets api server r =
    (r.status ≡ 200)
    × (r.body ≡ bytes "Hello, world!\n")
    × ((name : Bytes) → api.values r.headers name ≡ fields_of server name)

-- The two names differ, so the order in which they are set does not show.
swapped :
    (name : Bytes) (x y : List Bytes)
    → (if eq_bytes name (bytes "server")
        then x
        else if eq_bytes name (bytes "content-type")
        then y
        else [])
      ≡ (if eq_bytes name (bytes "content-type")
          then y
          else if eq_bytes name (bytes "server")
          then x
          else [])
unfolding eq_bytes
swapped name x y = elim (Bool-cases (eq_bytes name (bytes "server"))) [
  | inl is_server ↦
      let n = eq_bytes_lem name (bytes "server") is_server in
      let other : eq_bytes name (bytes "content-type") ≡ false =
        ap (λ m. eq_bytes m (bytes "content-type")) n in
      rw (is_server, other)
  | inr other ↦ rw other
]

module _ (api : HeadersApi) (laws : IsHeaders api) where
  two_fields :
      (k v k' v' name : Bytes)
      → api.values (api.insert (api.insert api.empty k v) k' v') name
        ≡ (if eq_bytes name k' then v' ∷ [] else if eq_bytes name k then v ∷ [] else [])
  two_fields k v k' v' name = rw (
    laws.values-insert (api.insert api.empty k v) k' v' name,
    laws.values-insert api.empty k v name,
    laws.values-empty name,
  )

  -- The handlers set the same two fields, but for the server's name; the frameworks add theirs.
  handlers-Greet :
      {Request : Type 0} (req : Request)
      → Greets api (bytes "actix") (actix_handler api req)
        × Greets api (bytes "ntex") (ntex_handler api req)
        × Greets api (bytes "hyper") (hello api req)
  unfolding actix_handler ntex_handler hello lower
  handlers-Greet req = (
    (refl, refl, λ name. two_fields _ _ _ _ name),
    (refl, refl, λ name. two_fields _ _ _ _ name ∙ swapped name _ _),
    (refl, refl, λ name. two_fields _ _ _ _ name),
  )
