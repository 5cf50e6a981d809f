-- ===== src/Toysync/Pool/Survival.antt =====
-- How many threads are left, who holds the lock, and when `execute` panics.
use benchmark_reverse_proxie.Common.{
  ℕ, ◌+◌, ◌≤◌, ◌≡◌, ◌≢◌, ap, ◌∙◌, ◌↔◌, Bool, true, [], ◌∷◌, none, some, arith, length,
  length-append, length-set, length-replicate,
}
use benchmark_reverse_proxie.Toysync.Pool.{
  waiting, receiving, running, dead, Lock, free, held, poisoned, ThreadPool, execute, close, new,
  Step, send, drops, moves, Reach,
}
use benchmark_reverse_proxie.Toysync.Pool.Counts.{
  total, total-set, total-replicate, alive, holding, has_receiver-alive,
}
use benchmark_reverse_proxie.Toysync.Pool.Moves.{
  Move, takes_lock, meets_poison, receives, meets_close, ends_job, crashes, turn-Move,
  execute-sends, Reach-induction, new-waits,
}

abbrev pub holders : Lock → ℕ
holders free = 0
holders held = 1
holders poisoned = 0

pub holders_le : (l : Lock) → holders l ≤ 1
holders_le l = ground arith

module _ {Job : Type 0} (returns : Job → Bool) where
  -- The bookkeeping of a pool of `size` threads.
  pub record IsCounted (size : ℕ) (p : ThreadPool Job) : Type 0 where
    pub threads : length p.workers ≡ size
    pub locked : total holding p.workers ≡ holders p.lock
    pub clean : p.sender ≡ true → p.lock ≢ poisoned
    pub deaths : p.sender ≡ true → total alive p.workers + length p.crashed ≡ size
    pub at_least : total alive p.workers + length p.crashed ≤ size

  module _ (size : ℕ) (p q : ThreadPool Job) (i : ℕ) (c : IsCounted size p) where
    Move-IsCounted : Move returns p i q → IsCounted size q
    Move-IsCounted (takes_lock w l e) = rw e (record {
      threads = length-set p.workers i receiving ∙ c.threads;
      locked =
          omega (arith, total-set holding p.workers i waiting receiving w, c.locked, ap holders l);
      clean = λ s h. cc;
      deaths = λ s. omega (arith, total-set alive p.workers i waiting receiving w, c.deaths s);
      at_least = omega (arith, total-set alive p.workers i waiting receiving w, c.at_least);
    })
    Move-IsCounted (meets_poison w l e) = rw e (record {
      threads = length-set p.workers i dead ∙ c.threads;
      locked = omega (arith, total-set holding p.workers i waiting dead w, c.locked);
      clean = c.clean;
      deaths = λ s. absurd (c.clean s l);
      at_least = omega (arith, total-set alive p.workers i waiting dead w, c.at_least);
    })
    Move-IsCounted (receives job rest w ch e) = rw e (record {
      threads = length-set p.workers i (running job) ∙ c.threads;
      locked = omega (
        arith,
        total-set holding p.workers i receiving (running job) w,
        c.locked,
        holders_le p.lock,
      );
      clean = λ s h. cc;
      deaths =
          λ s. omega (arith, total-set alive p.workers i receiving (running job) w, c.deaths s);
      at_least = omega (arith, total-set alive p.workers i receiving (running job) w, c.at_least);
    })
    Move-IsCounted (meets_close w ch s e) = rw e (record {
      threads = length-set p.workers i dead ∙ c.threads;
      locked =
          omega
            (arith, total-set holding p.workers i receiving dead w, c.locked, holders_le p.lock);
      clean = λ o. cc;
      deaths = λ o. cc;
      at_least = omega (arith, total-set alive p.workers i receiving dead w, c.at_least);
    })
    Move-IsCounted (ends_job job w ok e) = rw e (record {
      threads = length-set p.workers i waiting ∙ c.threads;
      locked = omega (arith, total-set holding p.workers i (running job) waiting w, c.locked);
      clean = c.clean;
      deaths = λ s. omega (arith, total-set alive p.workers i (running job) waiting w, c.deaths s);
      at_least = omega (arith, total-set alive p.workers i (running job) waiting w, c.at_least);
    })
    Move-IsCounted (crashes job w ko e) = rw e (record {
      threads = length-set p.workers i dead ∙ c.threads;
      locked = omega (arith, total-set holding p.workers i (running job) dead w, c.locked);
      clean = c.clean;
      deaths = λ s. omega (
        arith,
        total-set alive p.workers i (running job) dead w,
        length-append p.crashed (job ∷ []),
        c.deaths s,
      );
      at_least = omega (
        arith,
        total-set alive p.workers i (running job) dead w,
        length-append p.crashed (job ∷ []),
        c.at_least,
      );
    })

  Step-IsCounted :
      (size : ℕ) (p q : ThreadPool Job) → Step returns p q → IsCounted size p → IsCounted size q
  unfolding close
  Step-IsCounted size p q (send job open' h) c = rw (execute-sends returns p q job h) (record {
    threads = c.threads;
    locked = c.locked;
    clean = c.clean;
    deaths = c.deaths;
    at_least = c.at_least;
  })
  Step-IsCounted size p q (drops e) c = rw e (record {
    threads = c.threads;
    locked = c.locked;
    clean = λ s. cc;
    deaths = λ s. cc;
    at_least = c.at_least;
  })
  Step-IsCounted size p q (moves i h) c = Move-IsCounted size p q i c (turn-Move returns p i q h)

  new-IsCounted : (size : ℕ) (p : ThreadPool Job) → new size ≡ some p → IsCounted size p
  new-IsCounted size p h =
      let alive_all = total-replicate (alive {Job = Job}) size waiting in
      rw (new-waits returns size p h).1 (record {
        threads = length-replicate size waiting;
        locked = omega (arith, total-replicate (holding {Job = Job}) size waiting);
        clean = λ s h. cc;
        deaths = λ s. omega (arith, alive_all);
        at_least = omega (arith, alive_all);
      })

  pub Reach-IsCounted : (size : ℕ) (p : ThreadPool Job) → Reach returns size p → IsCounted size p
  Reach-IsCounted size p r =
      Reach-induction returns (IsCounted size) size (new-IsCounted size) (Step-IsCounted size) p r

  -- A pool of `size` threads outlives any number of jobs that return, and fewer than `size` that
  -- panic: while the pool is not dropped, `execute` panics exactly when `size` jobs have panicked.
  pub execute_panics_iff :
      (size : ℕ) (p : ThreadPool Job) (job : Job)
      → Reach returns size p
      → p.sender ≡ true
      → (execute p job ≡ none) ↔ (length p.crashed ≡ size)
  unfolding execute
  execute_panics_iff size p job r s =
      let d = (Reach-IsCounted size p r).deaths s in
      rw (has_receiver-alive p.workers) (ground arith)
