-- ===== src/Proxies/Actix/Relay.antt =====
-- proxy-actix/src/main.rs: what `forward` makes of a request and of its answer.
use benchmark_reverse_proxie.Common.{
  ◌≤◌, ◌≡◌, refl, sym, ap, ◌∙◌, true, false, List, [], ◌∷◌, Option, none, some, if◌then◌else◌,
  Bool-cases, Option-cases, inl, inr, arith, ◌↔◌, length,
}
use benchmark_reverse_proxie.Common.Bytes.{Bytes, bytes}
use benchmark_reverse_proxie.Http.{Field, eq_bytes}
use benchmark_reverse_proxie.Http.Headers.{HeadersApi, IsHeaders, values_of, latest, eq_bytes_lem}
use benchmark_reverse_proxie.Proxies.Actix.{
  is_hop, answer, Upstream, Incoming, Crates, response, internal_server_error, copy_headers,
  forwarded_req, forward,
}

-- What a client of the proxy finds under a name: nothing for a field of one hop, and the last of the
-- upstream server's values for any other.
abbrev pub relayed : List Field → Bytes → List Bytes
relayed fields name = if is_hop name then [] else latest [] (values_of name fields)

-- A content type where there is none.
abbrev pub typed : Bytes → List Bytes → List Bytes
typed name [] =
    if eq_bytes name (bytes "content-type") then bytes "application/octet-stream" ∷ [] else []
typed name (v ∷ vs) = v ∷ vs

-- What actix documents of `streaming`: the content type defaults to `application/octet-stream`.
abbrev pub IsStreaming : (api : HeadersApi) → Crates api → Type 0
IsStreaming api crates =
    (h : api.Headers) (name : Bytes)
    → api.values (crates.streaming h) name ≡ typed name (api.values h name)

length-latest : (v : Bytes) (vs : List Bytes) → length (latest (v ∷ []) vs) ≡ 1
unfolding latest
length-latest v [] = refl
length-latest v (w ∷ vs) = length-latest w vs

pub latest_keeps_iff : (vs : List Bytes) → (latest [] vs ≡ vs) ↔ (length vs ≤ 1)
unfolding latest
latest_keeps_iff [] = ((λ e. omega arith), (λ h. refl))
latest_keeps_iff (v ∷ []) = ((λ e. omega arith), (λ h. refl))
latest_keeps_iff (v ∷ w ∷ vs) = (
  (λ e. let l = sym (ap length e) ∙ length-latest w vs in omega (arith, l)),
  (λ h. absurd (omega (arith, h))),
)

module _ (api : HeadersApi) (laws : IsHeaders api) where
  copy_headers-latest :
      (fields : List Field) (h : api.Headers) (name : Bytes)
      → api.values (copy_headers api h fields) name ≡ (
          if is_hop name
          then api.values h name
          else latest (api.values h name) (values_of name fields))
  unfolding copy_headers values_of latest
  copy_headers-latest [] h name = elim (Bool-cases (is_hop name)) [
    | inl hop ↦ rw hop
    | inr end ↦ rw end
  ]
  copy_headers-latest ((k, v) ∷ fields) h name = elim (Bool-cases (eq_bytes name k)) [
    | inl same ↦
        let e = eq_bytes_lem name k same in
        elim (Bool-cases (is_hop k)) [
          | inl hop ↦
              let hop' : is_hop name ≡ true = ap is_hop e ∙ hop in
              rw (hop, copy_headers-latest fields h name, hop')
          | inr end ↦
              let end' : is_hop name ≡ false = ap is_hop e ∙ end in
              rw (
                end,
                copy_headers-latest fields (api.insert h k v) name,
                end',
                laws.values-insert h k v name,
                same,
              )
        ]
    | inr differ ↦ elim (Bool-cases (is_hop k)) [
      | inl hop ↦ rw (hop, copy_headers-latest fields h name, differ)
      | inr end ↦ rw (
        end,
        copy_headers-latest fields (api.insert h k v) name,
        laws.values-insert h k v name,
        differ,
      )
    ]
  ]

  -- Where the headers keep their contract, the values of a name that is no field of one hop are
  -- handed on as they are exactly if there is one at most: of several only the last is left.
  pub copy_headers-keeps_iff :
      (fields : List Field) (name : Bytes)
      → is_hop name ≡ false
      → (api.values (copy_headers api api.empty fields) name ≡ values_of name fields)
        ↔ (length (values_of name fields) ≤ 1)
  copy_headers-keeps_iff fields name end =
      let kept : api.values (copy_headers api api.empty fields) name
          ≡ latest [] (values_of name fields) =
        copy_headers-latest fields api.empty name ∙ rw (end, laws.values-empty name) in
      let (short, same) = latest_keeps_iff (values_of name fields) in
      ((λ e. short (sym kept ∙ e)), (λ few. kept ∙ same few))

  module _ (crates : Crates api) where
    -- Where the headers and `streaming` keep their contracts and the upstream server answers, the
    -- client gets its status, its body and, under every name, nothing if it is a field of one hop
    -- and otherwise the last of the upstream's values only; but `application/octet-stream` as the
    -- content type if the upstream server gave none.
    pub forward-relayed :
        (url : crates.Url) (req : Incoming api) (payload : Bytes) (peer_addr : Option Bytes)
        (res : Upstream)
        → IsStreaming api crates
        → crates.send_stream (forwarded_req api crates url req peer_addr) payload ≡ some res
        → (headers : api.Headers) × (forward api crates url req payload peer_addr
            ≡ response res.status headers res.body)
          × ((name : Bytes) → api.values headers name ≡ typed name (relayed res.headers name))
    unfolding forward answer
    forward-relayed url req payload peer_addr res streams sent = (
      crates.streaming (copy_headers api api.empty res.headers),
      rw sent,
      λ name.
          streams (copy_headers api api.empty res.headers) name
          ∙ ap (typed name)
              (copy_headers-latest res.headers api.empty name ∙ rw (laws.values-empty name)),
    )

    -- A request that could not be sent, or got no answer, is answered by an internal server error,
    -- and no other is.
    forward-error_iff :
        (url : crates.Url) (req : Incoming api) (payload : Bytes) (peer_addr : Option Bytes)
        → (forward api crates url req payload peer_addr ≡ internal_server_error)
          ↔ (crates.send_stream (forwarded_req api crates url req peer_addr) payload ≡ none)
    unfolding forward answer
    forward-error_iff url req payload peer_addr =
        elim (Option-cases
          (crates.send_stream (forwarded_req api crates url req peer_addr) payload)) [
            | inl gone ↦ rw gone ((λ e. refl), (λ e. refl))
            | inr (res, sent) ↦ rw sent ((λ e. cc), (λ e. cc))
          ]
