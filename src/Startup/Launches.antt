-- ===== src/Startup/Launches.antt =====
-- At which address the servers of the frameworks serve, and what has succeeded by then.
use benchmark_reverse_proxie.Common.{
  ℕ, ◌≡◌, refl, sym, ap, ◌∙◌, Bool, true, false, not, ◌&&◌, ◌||◌, List, [], ◌∷◌, ◌++◌, Bool-cases,
  inl, inr,
}
use benchmark_reverse_proxie.Common.Bytes.{Bytes, bytes}
use benchmark_reverse_proxie.Common.Bytes.Decimal.{decimal}
use benchmark_reverse_proxie.Common.Logged.{Logged}
use benchmark_reverse_proxie.Startup.{
  Call, init_logger, parse, to_socket_addrs, listen_on, add_tcp, http_server, run, run_forever,
  stops, origin_actix_main, origin_ntex_main, origin_pingora_main, proxy_pingora_main,
  origin_heph_main, with_addrs, proxy_actix_main,
}
use benchmark_reverse_proxie.Startup.Follows.{
  succeeded, up_to_failure, faultless, Follows, Follows-perform, Follows-then, Follows-unwrap,
}

abbrev is_run : Call → Bool
is_run run = true
is_run run_forever = true
is_run _ = false

-- The framework was told to serve.
abbrev pub has_run : List Call → Bool
has_run [] = false
has_run (call ∷ calls) = is_run call || has_run calls

abbrev pub addresses : List Call → List Bytes
addresses [] = []
addresses (listen_on address ∷ calls) = address ∷ addresses calls
addresses (add_tcp address ∷ calls) = address ∷ addresses calls
addresses (_ ∷ calls) = addresses calls

-- The URLs that requests are forwarded to.
abbrev pub forward_urls : List Call → List Bytes
forward_urls [] = []
forward_urls (http_server url ∷ calls) = url ∷ forward_urls calls
forward_urls (_ ∷ calls) = forward_urls calls

abbrev runs_last : List Call → Bool
runs_last [] = false
runs_last (call ∷ []) = is_run call
runs_last (call ∷ next ∷ calls) = not (is_run call) && runs_last (next ∷ calls)

runs_last-has_run : (calls : List Call) → runs_last calls ≡ true → has_run calls ≡ true
runs_last-has_run [] h = cc
runs_last-has_run (call ∷ []) h = rw h refl
runs_last-has_run (call ∷ next ∷ calls) h = elim (Bool-cases (is_run call)) [
  | inl early ↦ rw early refl
  | inr other ↦ rw other (runs_last-has_run (next ∷ calls) (rw other at h))
]

module _ (fails : Call → Bool) where
  faultless-up_to_failure :
      (calls : List Call) → faultless fails (up_to_failure fails calls) ≡ faultless fails calls
  faultless-up_to_failure [] = refl
  faultless-up_to_failure (call ∷ calls) = elim (Bool-cases (stops fails call)) [
    | inl bad ↦ rw bad refl
    | inr good ↦ rw good (faultless-up_to_failure calls)
  ]

  up_to_failure_twice :
      (calls : List Call)
      → up_to_failure fails (up_to_failure fails calls) ≡ up_to_failure fails calls
  up_to_failure_twice [] = refl
  up_to_failure_twice (call ∷ calls) = elim (Bool-cases (stops fails call)) [
    | inl bad ↦ rw bad refl
    | inr good ↦ rw good (ap (λ rest. call ∷ rest) (up_to_failure_twice calls))
  ]

  up_to_failure-faultless :
      (calls : List Call) → faultless fails calls ≡ true → up_to_failure fails calls ≡ calls
  up_to_failure-faultless [] h = refl
  up_to_failure-faultless (call ∷ calls) h = elim (Bool-cases (stops fails call)) [
    | inl bad ↦ let never : false ≡ true = rw bad at h in cc
    | inr good ↦ rw good (ap (λ rest. call ∷ rest) (up_to_failure-faultless calls (rw good at h)))
  ]

  up_to_failure-runs :
      (calls : List Call)
      → runs_last calls ≡ true
      → has_run (up_to_failure fails calls) ≡ true
      → up_to_failure fails calls ≡ calls
  up_to_failure-runs [] last h = refl
  up_to_failure-runs (call ∷ []) last h = elim (Bool-cases (stops fails call)) [
    | inl bad ↦ rw bad refl
    | inr good ↦ rw good refl
  ]
  up_to_failure-runs (call ∷ next ∷ calls) last h = elim (Bool-cases (is_run call)) [
    | inl early ↦ let never : false ≡ true = rw early at last in cc
    | inr other ↦ elim (Bool-cases (stops fails call)) [
      | inl bad ↦ let never : false ≡ true = rw (bad, other) at h in cc
      | inr good ↦ rw good (
          ap (λ rest. call ∷ rest)
            (up_to_failure-runs (next ∷ calls) (rw other at last) (rw (good, other) at h)))
    ]
  ]

  -- A failure ends the code, with an error; it serves only at the end, at one address.
  pub record IsLaunched (m : Logged Call Unit) (addr : Bytes) : Type 0 where
    pub succeeds_iff : succeeded (m []).0 ≡ faultless fails (m []).1
    pub fails_once : up_to_failure fails (m []).1 ≡ (m []).1
    pub serves : faultless fails (m []).1 ≡ true → has_run (m []).1 ≡ true
    pub listens : has_run (m []).1 ≡ true → addresses (m []).1 ≡ addr ∷ []

  Follows-whole :
      (m : Logged Call Unit) (calls : List Call)
      → Follows fails m calls
      → runs_last calls ≡ true
      → has_run (m []).1 ≡ true
      → (m []).1 ≡ calls
  Follows-whole m calls f last h = f.logs [] ∙ up_to_failure-runs calls last (rw (f.logs []) at h)

  Follows-IsLaunched :
      (m : Logged Call Unit) (addr : Bytes) (calls : List Call)
      → Follows fails m calls
      → runs_last calls ≡ true
      → addresses calls ≡ addr ∷ []
      → IsLaunched m addr
  Follows-IsLaunched m addr calls f last one =
      let logged = f.logs [] in
      record {
        succeeds_iff = rw logged (f.ends [] ∙ sym (faultless-up_to_failure calls));
        fails_once = rw logged (up_to_failure_twice calls);
        serves = λ h.
            let whole =
              up_to_failure-faultless calls
                (sym (faultless-up_to_failure calls) ∙ (rw logged at h)) in
            rw (logged, whole) (runs_last-has_run calls last);
        listens = λ h. rw (Follows-whole m calls f last h) one;
      }

  origin_actix_main-IsLaunched : IsLaunched (origin_actix_main fails) (bytes "127.0.0.1:3000")
  unfolding origin_actix_main decimal
  origin_actix_main-IsLaunched =
      Follows-IsLaunched _ _ _ (Follows-unwrap fails (Follows-then fails (Follows-perform fails)))
        refl refl

  origin_ntex_main-IsLaunched : IsLaunched (origin_ntex_main fails) (bytes "127.0.0.1:3000")
  unfolding origin_ntex_main
  origin_ntex_main-IsLaunched =
      Follows-IsLaunched _ _ _
        (Follows-unwrap fails
          (Follows-then fails (Follows-then fails (Follows-then fails (Follows-perform fails)))))
        refl refl

  origin_pingora_main-IsLaunched : IsLaunched (origin_pingora_main fails) (bytes "0.0.0.0:3000")
  unfolding origin_pingora_main
  origin_pingora_main-IsLaunched =
      Follows-IsLaunched _ _ _
        (Follows-unwrap fails
          (Follows-unwrap fails (Follows-then fails (Follows-then fails (Follows-perform fails)))))
        refl refl

  proxy_pingora_main-IsLaunched : IsLaunched (proxy_pingora_main fails) (bytes "0.0.0.0:3001")
  unfolding proxy_pingora_main
  proxy_pingora_main-IsLaunched =
      Follows-IsLaunched _ _ _
        (Follows-unwrap fails
          (Follows-unwrap fails (Follows-then fails (Follows-then fails (Follows-perform fails)))))
        refl refl

  origin_heph_main-IsLaunched : IsLaunched (origin_heph_main fails) (bytes "0.0.0.0:3000")
  unfolding origin_heph_main
  origin_heph_main-IsLaunched =
      Follows-IsLaunched _ _ _
        (Follows-unwrap fails (
          Follows-unwrap fails
            (Follows-then fails (Follows-then fails (Follows-then fails (Follows-perform fails))))))
        refl refl

  proxy_actix_calls : Bytes → List Call
  proxy_actix_calls addr =
      init_logger
      ∷ to_socket_addrs (bytes "127.0.0.1") 3000
      ∷ parse (bytes "http://" ++ addr)
      ∷ http_server (bytes "http://" ++ addr)
      ∷ listen_on (bytes "127.0.0.1:3001")
      ∷ run
      ∷ []

  module _ (resolved : Bytes → ℕ → List Bytes) (addr : Bytes) (addrs : List Bytes)
      (e : resolved (bytes "127.0.0.1") 3000 ≡ addr ∷ addrs) where
    proxy_actix_main-Follows :
        Follows fails (proxy_actix_main fails resolved) (proxy_actix_calls addr)
    unfolding proxy_actix_main decimal proxy_actix_calls
    proxy_actix_main-Follows =
        let found : Follows fails (with_addrs fails (resolved (bytes "127.0.0.1") 3000)) (
            parse (bytes "http://" ++ addr)
            ∷ http_server (bytes "http://" ++ addr)
            ∷ listen_on (bytes "127.0.0.1:3001")
            ∷ run
            ∷ []) =
          rw e (
            Follows-unwrap fails
              (Follows-then fails (Follows-then fails (Follows-perform fails)))) in
        Follows-unwrap fails (Follows-then fails found)

    -- Where the host and port to forward to stand for an address, and whichever calls fail:
    -- proxy-actix's `main` fails exactly if a call did, makes no call after that, and is told to
    -- serve if none did; it serves at port 3001 of the loopback only, and forwards to the first
    -- address that the host and port stand for.
    pub proxy_actix_main-IsLaunched :
        IsLaunched (proxy_actix_main fails resolved) (bytes "127.0.0.1:3001")
        × (has_run (proxy_actix_main fails resolved []).1 ≡ true
            → forward_urls (proxy_actix_main fails resolved []).1 ≡ (bytes "http://" ++ addr) ∷ [])
    unfolding proxy_actix_calls
    proxy_actix_main-IsLaunched = (
      Follows-IsLaunched _ _ _ proxy_actix_main-Follows refl refl,
      λ h. rw (Follows-whole _ _ proxy_actix_main-Follows refl h) refl,
    )

  -- Whichever calls fail: the mains of origin-actix, origin-ntex, origin-pingora, origin-heph and
  -- proxy-pingora each fail exactly if a call did, make no call after that, and are told to serve if
  -- none did; they serve at one address only, which is at port 3000 for an origin server and at port
  -- 3001 for the proxy.
  pub mains-IsLaunched :
      IsLaunched (origin_actix_main fails) (bytes "127.0.0.1:3000")
      × IsLaunched (origin_ntex_main fails) (bytes "127.0.0.1:3000")
      × IsLaunched (origin_pingora_main fails) (bytes "0.0.0.0:3000")
      × IsLaunched (origin_heph_main fails) (bytes "0.0.0.0:3000")
      × IsLaunched (proxy_pingora_main fails) (bytes "0.0.0.0:3001")
  mains-IsLaunched = (
    origin_actix_main-IsLaunched, origin_ntex_main-IsLaunched, origin_pingora_main-IsLaunched,
    origin_heph_main-IsLaunched, proxy_pingora_main-IsLaunched,
  )
