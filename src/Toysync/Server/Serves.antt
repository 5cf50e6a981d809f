-- ===== src/Toysync/Server/Serves.antt =====
-- What the clients of origin-toysync get, however its threads interleave.
use mathlib.Core.List.{Perm}
use mathlib.Core.List.Perm
use mathlib.Core.Option.{some-injective}
use benchmark_reverse_proxie.Common.{
  All-set, All-get_elem?, All-replicate, length-set, length-replicate, ◌≢◌, ℕ, ◌≡◌, ◌↔◌, refl, sym,
  ◌∙◌, List, [], ◌++◌, Option, none, some, get_elem?, replicate, All, subst, Option-cases, inl, inr,
}
use benchmark_reverse_proxie.Common.Bytes.{Bytes}
use benchmark_reverse_proxie.Toysync.Date.{SystemTime, last}
use benchmark_reverse_proxie.Toysync.Date.Cache.{IsRendering, IsCoherent, last-IsCoherent}
use benchmark_reverse_proxie.Toysync.Connection.{TcpStream}
use benchmark_reverse_proxie.Toysync.Pool.{
  waiting, receiving, ThreadPool, new, execute, turn, send, moves, start, later,
}
use benchmark_reverse_proxie.Toysync.Pool.Moves.{turn-Move, execute-sends, new-waits}
use benchmark_reverse_proxie.Toysync.Pool.Counts.{running_jobs}
use benchmark_reverse_proxie.Toysync.Pool.Agree.{turn-agree}
use benchmark_reverse_proxie.Toysync.Pool.Survival.{execute_panics_iff}
use benchmark_reverse_proxie.Toysync.Pool.Progress.{recv_is_complete}
use benchmark_reverse_proxie.Toysync.Server.{
  Handled, Server, returned, start_server, with_threads, run_job, cache_after, handled_after,
  turn_server,
}
use benchmark_reverse_proxie.Toysync.Server.Step.{accepts, turns, ServerReach, starts, goes_on}
use benchmark_reverse_proxie.Toysync.Server.Jobs.{behaves, run_job-behaves}
use benchmark_reverse_proxie.Toysync.Server.Turns.{Turned, turn_server-Turned, moves_in_server}
use benchmark_reverse_proxie.Toysync.Server.Keeps.{
  clients, Move-sender, IsGoodTime, IsServed, IsServing, good_clock, cache_after-IsCoherent,
  handled_after-IsServed, handled_after-good, Move-history, failures, Move-failures, Move-threads,
}

module _ (http_date : SystemTime → Option (List Bytes)) (limit : ℕ) (render : ℕ → List Bytes)
    (r : IsRendering http_date limit render) where
  abbrev Good : Handled → Type 0
  Good a = IsGoodTime http_date limit render r a

  abbrev Serving : ℕ → Server → Type 0
  Serving size s = IsServing http_date limit render r size s

  start_server-Serving : (size : ℕ) (s : Server) → start_server size ≡ some s → Serving size s
  unfolding start_server with_threads
  start_server-Serving size s h = elim (Option-cases (new {Job = TcpStream} size)) [
    | inl nothing ↦ let never : none ≡ some s = rw nothing at h in cc
    | inr (pool, made) ↦
        let (some_threads, shape) = new-waits behaves size pool made in
        let e : record { pool = pool; caches = replicate size last; handled = [] } ≡ s =
          some-injective _ _ (rw made at h) in
        subst (Serving size) e (record {
          reached = start made;
          keeps_pool = rw shape refl;
          caches = All-replicate (IsCoherent render) size last (last-IsCoherent render);
          history = rw shape Perm.nil;
          served = tt;
          failed = rw shape refl;
          cached = rw shape (length-replicate size last ∙ sym (length-replicate size waiting));
        })
  ]

  Turned-Serving :
      (size : ℕ) (s s' : Server) (i : ℕ) (now : SystemTime)
      → Turned http_date s i now s'
      → Serving size s
      → All Good s'.handled
      → Serving size s'
  Turned-Serving size s s' i now t v good =
      let o = get_elem? s.pool.workers i in
      let c = All-get_elem? (IsCoherent render) s.caches i t.cache t.has_cache v.caches in
      let clocks : All Good (handled_after http_date t.cache now o s.handled) =
        rw t.is_new at good in
      let moved : turn behaves s.pool i ≡ some t.pool =
        sym (
          turn-agree (λ stream. returned (run_job http_date t.cache now stream).0) behaves s.pool i
            (λ job e.
              (run_job-behaves http_date limit render r t.cache now
                (good_clock http_date limit render r t.cache now s.handled o job clocks e).0 c
                job).0))
        ∙ t.turn_pool in
      let m = turn-Move behaves s.pool i t.pool moved in
      subst (Serving size) (sym t.is_new) (record {
        reached = later v.reached (moves i moved);
        keeps_pool = Move-sender s.pool t.pool i m ∙ v.keeps_pool;
        caches =
            All-set (IsCoherent render) s.caches i (cache_after http_date t.cache now o) v.caches
              (cache_after-IsCoherent http_date limit render r t.cache now s.handled c o clocks);
        history =
            Move-history http_date limit render r t.cache now s.handled s.pool t.pool i m v.history;
        served =
            handled_after-IsServed http_date limit render r t.cache now s.handled c o clocks
              v.served;
        failed =
            Move-failures http_date limit render r t.cache now s.handled s.pool t.pool i m v.failed;
        cached =
            length-set s.caches i (cache_after http_date t.cache now o)
            ∙ (v.cached ∙ sym (Move-threads s.pool t.pool i m));
      })

  accepts-Serving :
      (size : ℕ) (s s' : Server) (stream : TcpStream) (pool : ThreadPool TcpStream)
      → execute s.pool stream ≡ some pool
      → s' ≡ record s { pool = pool }
      → Serving size s
      → Serving size s'
  accepts-Serving size s s' stream pool h e v =
      let shape = execute-sends behaves s.pool pool stream h in
      subst (Serving size) (sym e) (record {
        reached = later v.reached (send stream v.keeps_pool h);
        keeps_pool = rw shape v.keeps_pool;
        caches = v.caches;
        history = rw shape v.history;
        served = v.served;
        failed = rw shape v.failed;
        cached = rw shape v.cached;
      })

  -- A state that can be reached serves, if the clock was in range whenever a date was formatted.
  ServerReach-Serving :
      (size : ℕ) (s : Server) → ServerReach http_date size s → All Good s.handled → Serving size s
  ServerReach-Serving size s (starts h) good = start_server-Serving size s h
  ServerReach-Serving size s (goes_on {s = old} reach (accepts stream pool h e)) good =
      accepts-Serving size old s stream pool h e (ServerReach-Serving size old reach (rw e at good))
  ServerReach-Serving size s (goes_on {s = old} reach (turns i now h)) good =
      let t = turn_server-Turned http_date old s i now h in
      let clocks : All Good
          (handled_after http_date t.cache now (get_elem? old.pool.workers i) old.handled) =
        rw t.is_new at good in
      Turned-Serving size old s i now t
        (ServerReach-Serving size old reach (
          handled_after-good http_date limit render r t.cache now old.handled
            (get_elem? old.pool.workers i) clocks))
        good

  module _ (size : ℕ) (s : Server) (reach : ServerReach http_date size s)
      (good : All Good s.handled) where
    -- However the threads interleave, as long as `main` goes on and the clock was in range, and its
    -- date a line, whenever a date was formatted: each client whose job has ended, and whose
    -- connection did not fail, has been sent what it reads as the response of its time, whichever
    -- thread and cache it came to; and `execute` panics on the next connection exactly when as many
    -- of the handled clients failed as the pool has threads.
    pub server-serves :
        (stream : TcpStream)
        → All (IsServed http_date limit render r) s.handled
          × ((execute s.pool stream ≡ none) ↔ (failures s.handled ≡ size))
    server-serves stream =
        let v = ServerReach-Serving size s reach good in
        (
          v.served,
          rw v.failed (execute_panics_iff behaves size s.pool stream v.reached v.keeps_pool),
        )

    -- However the threads interleave, as long as `main` goes on and the clock was in range, and its
    -- date a line, whenever a date was formatted: while a thread is in `recv` and cannot move, no
    -- connection waits. The clients that were accepted are, each as often, those whose jobs have
    -- ended and those whose jobs the other threads run now, however long these take.
    pub server-completes :
        (i : ℕ) (now : SystemTime)
        → get_elem? s.pool.workers i ≡ some receiving
        → ((s' : Server) → turn_server http_date s i now ≢ some s')
        → Perm s.pool.sent (clients s.handled ++ running_jobs s.pool.workers)
    server-completes i now w stuck =
        let v = ServerReach-Serving size s reach good in
        let idle : (q : ThreadPool TcpStream) → turn behaves s.pool i ≢ some q =
          λ q e. let (s', t) = moves_in_server http_date s i now q v.cached e in stuck s' t in
        Perm.trans (recv_is_complete behaves size s.pool i v.reached w idle)
          (Perm.append_right (running_jobs s.pool.workers) (Perm.symm v.history))
