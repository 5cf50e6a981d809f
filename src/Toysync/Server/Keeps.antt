-- ===== src/Toysync/Server/Keeps.antt =====
-- What every step of the server keeps: coherent caches, and the accounts of the pool and of the
-- clients.
use mathlib.Core.List.{Perm, map-append, perm_append_singleton, perm_middle}
use mathlib.Core.List.Perm
use benchmark_reverse_proxie.Common.{
  ℕ, ◌≡◌, refl, true, List, [], ◌∷◌, ◌++◌, append_assoc, map, flatten, Option, none, some,
  get_elem?, All, All-append, length, length-append, length-set, if◌then◌else◌, ◌+◌, arith,
}
use benchmark_reverse_proxie.Common.Bytes.{Bytes}
use benchmark_reverse_proxie.Http.{read_response}
use benchmark_reverse_proxie.Toysync.Date.{SystemTime, LastRenderedNow, unix_secs}
use benchmark_reverse_proxie.Toysync.Date.Cache.{IsRendering, IsCoherent, InRange}
use benchmark_reverse_proxie.Toysync.Connection.{TcpStream}
use benchmark_reverse_proxie.Toysync.Connection.Response.{hello, HasDateLine}
use benchmark_reverse_proxie.Toysync.Pool.{
  Worker, waiting, receiving, running, dead, ThreadPool, Reach,
}
use benchmark_reverse_proxie.Toysync.Pool.Moves.{
  Move, takes_lock, meets_poison, receives, meets_close, ends_job, crashes,
}
use benchmark_reverse_proxie.Toysync.Server.{Handled, Server, cache_after, handled_after}
use benchmark_reverse_proxie.Toysync.Server.Jobs.{behaves, run_job-behaves, run_job-hello}

-- The clients of the jobs that have ended, in order.
abbrev pub clients : List Handled → List TcpStream
clients handled = map (λ (a : Handled). a.client) handled

-- How many of the handled clients do not behave.
abbrev pub failures : List Handled → ℕ
failures [] = 0
failures (a ∷ hs) = (if behaves a.client then 0 else 1) + failures hs

failures-append : (xs ys : List Handled) → failures (xs ++ ys) ≡ failures xs + failures ys
failures-append [] ys = omega arith
failures-append (x ∷ xs) ys = omega (arith, failures-append xs ys)

perm_returned :
    (xs ok bad : List TcpStream) (job : TcpStream)
    → Perm xs (ok ++ bad)
    → Perm (xs ++ job ∷ []) ((ok ++ job ∷ []) ++ bad)
perm_returned xs ok bad job h = Perm.trans (perm_append_singleton job xs) (
    Perm.trans (Perm.cons job h)
      (rw (append_assoc ok (job ∷ []) bad) (Perm.symm (perm_middle ok bad))))

perm_crashed :
    (xs ok bad : List TcpStream) (job : TcpStream)
    → Perm xs (ok ++ bad)
    → Perm (xs ++ job ∷ []) (ok ++ (bad ++ job ∷ []))
perm_crashed xs ok bad job h =
    rw (← append_assoc ok bad (job ∷ [])) (Perm.append_right (job ∷ []) h)

All-front {ℓ κ} :
    {A : Type ℓ} (P : A → Type κ) (xs ys : List A) → All P (xs ++ ys) → All P xs × All P ys
All-front P [] ys h = (tt, h)
All-front P (x ∷ xs) ys h = let (front, back) = All-front P xs ys h.1 in ((h.0, front), back)

pub Move-sender : (p q : ThreadPool TcpStream) (i : ℕ) → Move behaves p i q → q.sender ≡ p.sender
Move-sender p q i (takes_lock w l e) = rw e
Move-sender p q i (meets_poison w l e) = rw e
Move-sender p q i (receives job rest w c e) = rw e
Move-sender p q i (meets_close w c d e) = rw e
Move-sender p q i (ends_job job w f e) = rw e
Move-sender p q i (crashes job w f e) = rw e

pub Move-threads :
    (p q : ThreadPool TcpStream) (i : ℕ) → Move behaves p i q → length q.workers ≡ length p.workers
Move-threads p q i (takes_lock w l e) = rw e (length-set p.workers i receiving)
Move-threads p q i (meets_poison w l e) = rw e (length-set p.workers i dead)
Move-threads p q i (receives job rest w c e) = rw e (length-set p.workers i (running job))
Move-threads p q i (meets_close w c d e) = rw e (length-set p.workers i dead)
Move-threads p q i (ends_job job w f e) = rw e (length-set p.workers i waiting)
Move-threads p q i (crashes job w f e) = rw e (length-set p.workers i dead)

module _ (http_date : SystemTime → Option (List Bytes)) (limit : ℕ) (render : ℕ → List Bytes)
    (r : IsRendering http_date limit render) where
  -- The clock lies in the range that httpdate renders, and the date is a line.
  abbrev pub IsGoodTime : Handled → Type 0
  IsGoodTime a = InRange limit a.clock × HasDateLine render a.clock

  -- The client, if it behaves, has been sent what it reads as the response of that time.
  abbrev pub IsServed : Handled → Type 0
  IsServed a =
      behaves a.client ≡ true
      → read_response a.got ≡ some (hello (flatten (render (unix_secs a.clock))), [])

  pub record IsServing (size : ℕ) (s : Server) : Type 0 where
    pub reached : Reach behaves size s.pool
    pub keeps_pool : s.pool.sender ≡ true
    pub caches : All (IsCoherent render) s.caches
    pub history : Perm (clients s.handled) (s.pool.returned ++ s.pool.crashed)
    pub served : All IsServed s.handled
    pub failed : failures s.handled ≡ length s.pool.crashed
    pub cached : length s.caches ≡ length s.pool.workers

  module _ (cache : LastRenderedNow) (now : SystemTime) (hs : List Handled) where
    pub good_clock :
        (o : Option (Worker TcpStream)) (stream : TcpStream)
        → All IsGoodTime (handled_after http_date cache now o hs)
        → o ≡ some (running stream)
        → InRange limit now × HasDateLine render now
    good_clock (some (running x)) stream good e =
        (All-front IsGoodTime hs (record { client = x; clock = now; got = _ } ∷ []) good).1.0
    good_clock (some waiting) stream good e = cc
    good_clock (some receiving) stream good e = cc
    good_clock (some dead) stream good e = cc
    good_clock none stream good e = cc

    pub cache_after-IsCoherent :
        IsCoherent render cache
        → (o : Option (Worker TcpStream)) → All IsGoodTime (handled_after http_date cache now o hs)
        → IsCoherent render (cache_after http_date cache now o)
    cache_after-IsCoherent c (some (running x)) good =
        (run_job-behaves http_date limit render r cache now
          (good_clock (some (running x)) x good refl).0 c x).1
    cache_after-IsCoherent c (some waiting) good = c
    cache_after-IsCoherent c (some receiving) good = c
    cache_after-IsCoherent c (some dead) good = c
    cache_after-IsCoherent c none good = c

    pub handled_after-IsServed :
        IsCoherent render cache
        → (o : Option (Worker TcpStream)) → All IsGoodTime (handled_after http_date cache now o hs)
        → All IsServed hs
        → All IsServed (handled_after http_date cache now o hs)
    handled_after-IsServed c (some (running x)) good h =
        let (range, line) = good_clock (some (running x)) x good refl in
        All-append IsServed hs _ h
          (run_job-hello http_date limit render r cache now range c x line, tt)
    handled_after-IsServed c (some waiting) good h = h
    handled_after-IsServed c (some receiving) good h = h
    handled_after-IsServed c (some dead) good h = h
    handled_after-IsServed c none good h = h

    pub handled_after-good :
        (o : Option (Worker TcpStream))
        → All IsGoodTime (handled_after http_date cache now o hs)
        → All IsGoodTime hs
    handled_after-good (some (running x)) good = (All-front IsGoodTime hs _ good).0
    handled_after-good (some waiting) good = good
    handled_after-good (some receiving) good = good
    handled_after-good (some dead) good = good
    handled_after-good none good = good

    pub Move-history :
        (p q : ThreadPool TcpStream) (i : ℕ)
        → Move behaves p i q
        → Perm (clients hs) (p.returned ++ p.crashed)
        → Perm
            (clients (handled_after http_date cache now (get_elem? p.workers i) hs))
            (q.returned ++ q.crashed)
    Move-history p q i (takes_lock w l e) h = rw (w, e) h
    Move-history p q i (meets_poison w l e) h = rw (w, e) h
    Move-history p q i (receives job rest w k e) h = rw (w, e) h
    Move-history p q i (meets_close w k d e) h = rw (w, e) h
    Move-history p q i (ends_job job w f e) h =
        rw (w, e, map-append) (perm_returned (clients hs) p.returned p.crashed job h)
    Move-history p q i (crashes job w f e) h =
        rw (w, e, map-append) (perm_crashed (clients hs) p.returned p.crashed job h)

    pub Move-failures :
        (p q : ThreadPool TcpStream) (i : ℕ)
        → Move behaves p i q
        → failures hs ≡ length p.crashed
        → failures (handled_after http_date cache now (get_elem? p.workers i) hs) ≡ length q.crashed
    Move-failures p q i (takes_lock w l e) h = rw (w, e) h
    Move-failures p q i (meets_poison w l e) h = rw (w, e) h
    Move-failures p q i (receives job rest w k e) h = rw (w, e) h
    Move-failures p q i (meets_close w k d e) h = rw (w, e) h
    Move-failures p q i (ends_job job w f e) h = rw (w, e, failures-append, f) (omega (arith, h))
    Move-failures p q i (crashes job w f e) h =
        rw (w, e, failures-append, f, length-append) (omega (arith, h))
