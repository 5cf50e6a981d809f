-- ===== src/Toysync/Server/Turns.antt =====
-- The turns of the server are the turns of its pool.
use mathlib.Core.Option.{some-injective}
use benchmark_reverse_proxie.Common.{
  get_elem?-of_lt, ℕ, ◌≡◌, refl, sym, List, Option, none, some, get_elem?, set, length, arith,
  Option-cases, inl, inr,
}
use benchmark_reverse_proxie.Common.Bytes.{Bytes}
use benchmark_reverse_proxie.Toysync.Date.{SystemTime, LastRenderedNow}
use benchmark_reverse_proxie.Toysync.Connection.{TcpStream}
use benchmark_reverse_proxie.Toysync.Pool.{ThreadPool, turn}
use benchmark_reverse_proxie.Toysync.Server.{
  Server, returned, run_job, cache_after, handled_after, moved, on_thread, turn_server,
}
use benchmark_reverse_proxie.Toysync.Pool.Agree.{turn-moves, turn_there}
use benchmark_reverse_proxie.Toysync.Server.Jobs.{behaves}

-- A turn that succeeds is a turn of the pool, with the thread's cache.
pub record Turned (http_date : SystemTime → Option (List Bytes)) (s : Server) (i : ℕ)
    (now : SystemTime) (s' : Server) : Type 0 where
  pub cache : LastRenderedNow
  pub pool : ThreadPool TcpStream
  pub has_cache : get_elem? s.caches i ≡ some cache
  pub turn_pool :
      turn (λ stream. returned (run_job http_date cache now stream).0) s.pool i ≡ some pool
  pub is_new : s' ≡ record {
    pool = pool;
    caches = set s.caches i (cache_after http_date cache now (get_elem? s.pool.workers i));
    handled = handled_after http_date cache now (get_elem? s.pool.workers i) s.handled;
  }

module _ (http_date : SystemTime → Option (List Bytes)) where
  pub turn_server-Turned :
      (s s' : Server) (i : ℕ) (now : SystemTime)
      → turn_server http_date s i now ≡ some s'
      → Turned http_date s i now s'
  unfolding turn_server on_thread moved
  turn_server-Turned s s' i now h = elim (Option-cases (get_elem? s.caches i)) [
    | inl out ↦ let never : none ≡ some s' = rw out at h in cc
    | inr (cache, e) ↦
        elim (Option-cases
          (turn (λ stream. returned (run_job http_date cache now stream).0) s.pool i)) [
            | inl stuck ↦ let never : none ≡ some s' = rw (e, stuck) at h in cc
            | inr (pool, t) ↦ record {
              cache = cache;
              pool = pool;
              has_cache = e;
              turn_pool = t;
              is_new = sym (some-injective _ _ (rw (e, t) at h));
            }
          ]
  ]

  -- A thread that can move can move in the server, at any time.
  pub moves_in_server :
      (s : Server) (i : ℕ) (now : SystemTime) (q : ThreadPool TcpStream)
      → length s.caches ≡ length s.pool.workers
      → turn behaves s.pool i ≡ some q
      → (s' : Server) × (turn_server http_date s i now ≡ some s')
  unfolding turn_server on_thread moved
  moves_in_server s i now q same h =
      let there = turn_there behaves s.pool q i h in
      let (cache, e) = get_elem?-of_lt s.caches i (omega (arith, same, there)) in
      let (pool, t) =
        turn-moves behaves (λ stream. returned (run_job http_date cache now stream).0) s.pool i q
          h in
      (
        record {
          pool = pool;
          caches = set s.caches i (cache_after http_date cache now (get_elem? s.pool.workers i));
          handled = handled_after http_date cache now (get_elem? s.pool.workers i) s.handled;
        },
        rw (e, t) refl,
      )
