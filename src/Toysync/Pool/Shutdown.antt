-- ===== src/Toysync/Pool/Shutdown.antt =====
-- What becomes of a pool that is dropped: its threads run what was sent, and end.
use mathlib.Core.List.{Perm}
use benchmark_reverse_proxie.Common.{
  ℕ, suc, ◌+◌, ◌≤◌, ◌<◌, ◌≡◌, refl, sym, ap, ◌∙◌, Bool, true, false, List, [], ◌∷◌, ◌++◌, some,
  arith, length, length-append, get_elem?, set, replicate, append-nil, ◌⊎◌, inl, inr, Bool-cases,
  ltb, ltb→lt,
}
use benchmark_reverse_proxie.Toysync.Pool.{
  Worker, waiting, receiving, running, dead, poisoned, ThreadPool, close, turn, recv_turn, Step,
  send, drops, moves, Reach, start, later,
}
use benchmark_reverse_proxie.Toysync.Pool.Counts.{
  total, total-at, running_jobs, total-set, alive, none_running, all_dead, alive-has_receiver,
  kept-nil,
}
use benchmark_reverse_proxie.Toysync.Pool.Moves.{
  Move, takes_lock, meets_poison, receives, meets_close, ends_job, crashes, turn-Move,
  execute-sends, new-waits,
}
use benchmark_reverse_proxie.Toysync.Pool.Order.{IsOrdered, Reach-IsOrdered, still_there}
use benchmark_reverse_proxie.Toysync.Pool.Survival.{IsCounted, Reach-IsCounted}
use benchmark_reverse_proxie.Toysync.Pool.Progress.{CanMove, lock_moves, work, work-turn}

module _ {Job : Type 0} (returns : Job → Bool) where
  -- A thread that has ended without a panic of its job has found the channel closed and empty.
  record IsDrained (size : ℕ) (p : ThreadPool Job) : Type 0 where
    empty : p.lock ≡ poisoned → p.channel ≡ []
    gone :
        total alive p.workers + length p.crashed < size → (p.channel ≡ []) × (p.sent ≡ p.received)

  -- With a thread left and an empty channel, what was sent was received.
  all_received :
      (p : ThreadPool Job) (i : ℕ) (a : Worker Job)
      → IsOrdered returns p
      → get_elem? p.workers i ≡ some a
      → 0 < alive a
      → p.channel ≡ []
      → p.sent ≡ p.received
  all_received p i a o w h e =
      still_there returns p o (alive-has_receiver p.workers i a w h)
      ∙ ap (λ l. p.received ++ l) e
      ∙ append-nil p.received

  module _ (size : ℕ) (p q : ThreadPool Job) (i : ℕ) (d : IsDrained size p)
      (o : IsOrdered returns p) where
    Move-IsDrained : Move returns p i q → IsDrained size q
    Move-IsDrained (takes_lock w l e) = rw e (record {
      empty = λ h. cc;
      gone = λ few. d.gone (omega (arith, total-set alive p.workers i waiting receiving w));
    })
    Move-IsDrained (meets_poison w l e) =
        let none_left = kept-nil (set p.workers i dead) p.channel (d.empty l) in
        rw e (record {
          empty = λ h. none_left;
          gone = λ few. (none_left, all_received p i waiting o w (omega arith) (d.empty l));
        })
    Move-IsDrained (receives job rest w ch e) = rw e (record {
      empty = λ h. cc;
      gone = λ few.
          let none_left =
            (d.gone (omega (arith, total-set alive p.workers i receiving (running job) w))).0 in
          let never : job ∷ rest ≡ [] = sym ch ∙ none_left in cc;
    })
    Move-IsDrained (meets_close w ch s e) = rw e (record {
      empty = λ h. ch;
      gone = λ few. (ch, all_received p i receiving o w (omega arith) ch);
    })
    Move-IsDrained (ends_job job w ok e) = rw e (record {
      empty = d.empty;
      gone = λ few. d.gone (omega (arith, total-set alive p.workers i (running job) waiting w));
    })
    Move-IsDrained (crashes job w ko e) = rw e (record {
      empty = λ h. kept-nil (set p.workers i dead) p.channel (d.empty h);
      gone = λ few.
          let (none_left, all) = d.gone (
            omega (
              arith,
              total-set alive p.workers i (running job) dead w,
              length-append p.crashed (job ∷ []),
            )) in
          (kept-nil (set p.workers i dead) p.channel none_left, all);
    })

  Step-IsDrained :
      (size : ℕ) (p q : ThreadPool Job)
      → Step returns p q
      → IsCounted returns size p
      → IsOrdered returns p
      → IsDrained size p
      → IsDrained size q
  unfolding close
  Step-IsDrained size p q (send job open' h) c o d = rw (execute-sends returns p q job h) (record {
    empty = λ l. absurd (c.clean open' l);
    gone = λ few. absurd (omega (arith, c.deaths open'));
  })
  Step-IsDrained size p q (drops e) c o d = rw e (record { empty = d.empty; gone = d.gone })
  Step-IsDrained size p q (moves i h) c o d =
      Move-IsDrained size p q i d o (turn-Move returns p i q h)

  Reach-IsDrained : (size : ℕ) (p : ThreadPool Job) → Reach returns size p → IsDrained size p
  Reach-IsDrained size p (start h) =
      rw (new-waits returns size p h).1 (record { empty = λ l. refl; gone = λ few. (refl, refl) })
  Reach-IsDrained size p (later {p = before} r step) =
      Step-IsDrained size before p step (Reach-IsCounted returns size before r)
        (Reach-IsOrdered returns size before r) (Reach-IsDrained size before r)

  closed_recv_moves :
      (p : ThreadPool Job) (i : ℕ) (jobs : List Job) (sender : Bool)
      → sender ≡ false
      → (q : ThreadPool Job) × (recv_turn returns p i jobs sender ≡ some q)
  unfolding recv_turn
  closed_recv_moves p i [] true h = cc
  closed_recv_moves p i [] false h = (_, refl)
  closed_recv_moves p i (job ∷ rest) sender h = (_, refl)

  closed_receiver_moves :
      (p : ThreadPool Job) (i : ℕ)
      → p.sender ≡ false
      → get_elem? p.workers i ≡ some receiving
      → CanMove returns p
  unfolding turn
  closed_receiver_moves p i closed w =
      let (q, e) = closed_recv_moves p i p.channel p.sender closed in (i, q, rw w e)

  -- A run of `n` turns, with no job sent.
  pub data Turns (p : ThreadPool Job) : ℕ → ThreadPool Job → Type 0 where
    stays : Turns p 0 p
    then_moves :
        {n : ℕ} {q r : ThreadPool Job} (i : ℕ)
        → Turns p n q
        → turn returns q i ≡ some r
        → Turns p (suc n) r

  Turns-Reach :
      (size : ℕ) (p q : ThreadPool Job) (n : ℕ)
      → Reach returns size p
      → Turns p n q
      → Reach returns size q
  Turns-Reach size p _ _ r stays = r
  Turns-Reach size p _ _ r (then_moves {n = n} {q = q} i ts e) =
      later (Turns-Reach size p q n r ts) (moves i e)

  Move-sender : (p q : ThreadPool Job) (i : ℕ) → Move returns p i q → q.sender ≡ p.sender
  Move-sender p q i (takes_lock w l e) = ap ThreadPool.sender e
  Move-sender p q i (meets_poison w l e) = ap ThreadPool.sender e
  Move-sender p q i (receives job rest w ch e) = ap ThreadPool.sender e
  Move-sender p q i (meets_close w ch s e) = ap ThreadPool.sender e
  Move-sender p q i (ends_job job w ok e) = ap ThreadPool.sender e
  Move-sender p q i (crashes job w ko e) = ap ThreadPool.sender e

  Turns-sender : (p q : ThreadPool Job) (n : ℕ) → Turns p n q → q.sender ≡ p.sender
  Turns-sender p _ _ stays = refl
  Turns-sender p _ _ (then_moves {n = n} {q = q} {r = r} i ts e) =
      Move-sender q r i (turn-Move returns q i r e) ∙ Turns-sender p q n ts

  Turns-work : (p q : ThreadPool Job) (n : ℕ) → Turns p n q → n + work returns q ≤ work returns p
  Turns-work p _ _ stays = omega arith
  Turns-work p _ _ (then_moves {n = n} {q = q} {r = r} i ts e) =
      omega (arith, Turns-work p q n ts, work-turn returns q r i e)

  -- Every thread has ended, and the jobs sent are, each as often, those that returned and those that
  -- panicked.
  abbrev pub HasShutDown : ℕ → ThreadPool Job → Type 0
  HasShutDown size p = (p.workers ≡ replicate size dead) × Perm p.sent (p.returned ++ p.crashed)

  none_alive_runs : (ws : List (Worker Job)) → total alive ws ≡ 0 → running_jobs ws ≡ []
  none_alive_runs ws over =
      none_running ws (λ i job w. absurd (omega (arith, over, total-at alive ws i (running job) w)))

  none_alive :
      (size : ℕ) (p : ThreadPool Job)
      → Reach returns size p
      → length p.crashed < size
      → total alive p.workers ≡ 0
      → HasShutDown size p
  none_alive size p r few over =
      let c = Reach-IsCounted returns size p r in
      let o = Reach-IsOrdered returns size p r in
      let (drained, all) = (Reach-IsDrained size p r).gone (omega (arith, over)) in
      (
        all_dead p.workers over ∙ ap (λ n. replicate n dead) c.threads,
        rw all (
            rw (none_alive_runs p.workers over, append-nil (p.returned ++ p.crashed)) at o.started),
      )

  -- A pool that has been dropped shuts down, whichever thread moves when: its threads make at most
  -- as many turns as `work` counts, two for a thread that waits, one for one in `recv`, three for a
  -- job in the channel or in a thread. At any time some thread can move, or every thread has ended
  -- and the jobs sent are, each as often, those that returned and those that panicked, or as many
  -- jobs have panicked as the pool has threads.
  pub drop_completes :
      (size n : ℕ) (p q : ThreadPool Job)
      → Reach returns size p
      → p.sender ≡ false
      → Turns p n q
      → (n ≤ work returns p)
        × (CanMove returns q ⊎ (HasShutDown size q ⊎ (length q.crashed ≡ size)))
  drop_completes size n p q reached closed ts =
      let r = Turns-Reach size p q n reached ts in
      let closed_still = Turns-sender p q n ts ∙ closed in
      (
        omega (arith, Turns-work p q n ts),
        elim (Bool-cases (ltb 0 (total alive q.workers))) [
          | inl some_left ↦ inl (
              lock_moves returns q (λ i w. closed_receiver_moves q i closed_still w) q.lock refl
                (Reach-IsCounted returns size q r).locked (ltb→lt 0 _ some_left))
          | inr none_left ↦ inr (elim (Bool-cases (ltb (length q.crashed) size)) [
            | inl few ↦ inl (none_alive size q r (ltb→lt _ size few) (ground arith))
            | inr many ↦
                let most = (Reach-IsCounted returns size q r).at_least in inr (ground arith)
          ])
        ],
      )
