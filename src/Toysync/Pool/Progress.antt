-- ===== src/Toysync/Pool/Progress.antt =====
-- No deadlock: what is sent is run.
use mathlib.Core.List.{Perm}
use benchmark_reverse_proxie.Common.{
  ℕ, ◌+◌, ◌*◌, ◌<◌, ◌≡◌, ◌≢◌, refl, ap, Bool, true, false, List, [], ◌∷◌, ◌++◌, some, arith, length,
  get_elem?, set, append-nil, if◌then◌else◌,
}
use benchmark_reverse_proxie.Toysync.Pool.{
  Worker, waiting, receiving, running, dead, Lock, free, held, poisoned, ThreadPool, has_receiver,
  turn, lock_turn, recv_turn, job_turn, Reach,
}
use benchmark_reverse_proxie.Toysync.Pool.Counts.{
  running_jobs, alive-has_receiver, total, total-set, total-found, alive, holding, none_running,
  kept_le, has_receiver-alive,
}
use benchmark_reverse_proxie.Toysync.Pool.Moves.{
  Move, takes_lock, meets_poison, receives, meets_close, ends_job, crashes, turn-Move,
}
use benchmark_reverse_proxie.Toysync.Pool.Order.{Reach-IsOrdered, still_there}
use benchmark_reverse_proxie.Toysync.Pool.Survival.{Reach-IsCounted, holders}

if-some {ℓ} :
    {A : Type ℓ} (b : Bool) (x y : A) → (z : A) × ((if b then some x else some y) ≡ some z)
if-some true x y = (x, refl)
if-some false x y = (y, refl)

module _ {Job : Type 0} (returns : Job → Bool) where
  recv_turn_moves :
      (p : ThreadPool Job) (i : ℕ) (jobs : List Job)
      → jobs ≢ []
      → (q : ThreadPool Job) × (recv_turn returns p i jobs p.sender ≡ some q)
  unfolding recv_turn
  recv_turn_moves p i [] h = absurd (h refl)
  recv_turn_moves p i (job ∷ rest) h = (_, refl)

  job_turn_moves :
      (p : ThreadPool Job) (i : ℕ) (job : Job)
      → (q : ThreadPool Job) × (job_turn returns p i job ≡ some q)
  unfolding job_turn
  job_turn_moves p i job = if-some (returns job) _ _

  lock_turn_moves :
      (p : ThreadPool Job) (i : ℕ) (l : Lock)
      → l ≢ held
      → (q : ThreadPool Job) × (lock_turn returns p i l ≡ some q)
  unfolding lock_turn
  lock_turn_moves p i free h = (_, refl)
  lock_turn_moves p i held h = absurd (h refl)
  lock_turn_moves p i poisoned h = (_, refl)

  -- Some thread can move.
  abbrev pub CanMove : ThreadPool Job → Type 0
  CanMove p = (i : ℕ) × (q : ThreadPool Job) × (turn returns p i ≡ some q)

  module _ (p : ThreadPool Job) where
    receiver_moves : (i : ℕ) → get_elem? p.workers i ≡ some receiving → p.channel ≢ [] → CanMove p
    unfolding turn
    receiver_moves i w h = let (q, e) = recv_turn_moves p i p.channel h in (i, q, rw w e)

    pub runner_moves : (i : ℕ) (job : Job) → get_elem? p.workers i ≡ some (running job) → CanMove p
    unfolding turn
    runner_moves i job w = let (q, e) = job_turn_moves p i job in (i, q, rw w e)

    waiter_moves : (i : ℕ) → get_elem? p.workers i ≡ some waiting → p.lock ≢ held → CanMove p
    unfolding turn
    waiter_moves i w h = let (q, e) = lock_turn_moves p i p.lock h in (i, q, rw w e)

  -- Where those in `recv` can move: if the lock is held then its holder moves, else whoever is
  -- alive.
  module _ (p : ThreadPool Job)
      (receivers : (i : ℕ) → get_elem? p.workers i ≡ some receiving → CanMove p) where
    alive_moves :
        (i : ℕ) (a : Worker Job)
        → get_elem? p.workers i ≡ some a
        → 0 < alive a
        → p.lock ≢ held
        → CanMove p
    alive_moves i waiting w h l = waiter_moves p i w l
    alive_moves i receiving w h l = receivers i w
    alive_moves i (running job) w h l = runner_moves p i job w
    alive_moves i dead w h l = absurd (omega arith)

    holder_moves :
        (i : ℕ) (a : Worker Job) → get_elem? p.workers i ≡ some a → 0 < holding a → CanMove p
    holder_moves i receiving w h = receivers i w
    holder_moves i waiting w h = absurd (omega arith)
    holder_moves i (running job) w h = absurd (omega arith)
    holder_moves i dead w h = absurd (omega arith)

    pub lock_moves :
        (l : Lock)
        → p.lock ≡ l
        → total holding p.workers ≡ holders p.lock
        → 0 < total alive p.workers
        → CanMove p
    lock_moves held e c h =
        let (i, a, w, pos) = total-found holding p.workers (omega (arith, c, ap holders e)) in
        holder_moves i a w pos
    lock_moves free e c h =
        let (i, a, w, pos) = total-found alive p.workers h in alive_moves i a w pos (λ k. cc)
    lock_moves poisoned e c h =
        let (i, a, w, pos) = total-found alive p.workers h in alive_moves i a w pos (λ k. cc)

  -- No deadlock: while the pool is not dropped, a job waits in the channel and fewer than `size`
  -- jobs have panicked, some thread can move.
  no_deadlock :
      (size : ℕ) (p : ThreadPool Job)
      → Reach returns size p
      → p.sender ≡ true
      → length p.crashed < size
      → p.channel ≢ []
      → CanMove p
  no_deadlock size p r s few ch =
      let c = Reach-IsCounted returns size p r in
      lock_moves p (λ i w. receiver_moves p i w ch) p.lock refl c.locked (omega (arith, c.deaths s))

  -- What the threads can still do without a new job.
  abbrev effort : Worker Job → ℕ
  effort waiting = 2
  effort receiving = 1
  effort (running _) = 3
  effort dead = 0

  pub work : ThreadPool Job → ℕ
  work p = total effort p.workers + 3 * length p.channel

  Move-work : (p q : ThreadPool Job) (i : ℕ) → Move returns p i q → work q < work p
  unfolding work
  Move-work p q i (takes_lock w l e) =
      rw e (omega (arith, total-set effort p.workers i waiting receiving w))
  Move-work p q i (meets_poison w l e) =
      let fewer = kept_le (set p.workers i dead) p.channel in
      rw e (omega (arith, fewer, total-set effort p.workers i waiting dead w))
  Move-work p q i (receives job rest w c e) =
      rw (e, c) (omega (arith, total-set effort p.workers i receiving (running job) w))
  Move-work p q i (meets_close w c s e) =
      rw e (omega (arith, total-set effort p.workers i receiving dead w))
  Move-work p q i (ends_job job w ok e) =
      rw e (omega (arith, total-set effort p.workers i (running job) waiting w))
  Move-work p q i (crashes job w ko e) =
      let fewer = kept_le (set p.workers i dead) p.channel in
      rw e (omega (arith, fewer, total-set effort p.workers i (running job) dead w))

  -- Every turn of a thread, in whatever state, makes the measure `work` of the pool smaller.
  pub work-turn : (p q : ThreadPool Job) (i : ℕ) → turn returns p i ≡ some q → work q < work p
  work-turn p q i h = Move-work p q i (turn-Move returns p i q h)

  empty_channel : (l : List Job) → ¬ (l ≢ []) → l ≡ []
  empty_channel [] h = refl
  empty_channel (x ∷ l) h = absurd (h (λ e. cc))

  -- Where a thread is in `recv` and cannot move, nothing waits: the jobs sent are, each as often,
  -- those that returned, those that panicked and those that run now.
  pub recv_is_complete :
      (size : ℕ) (p : ThreadPool Job) (i : ℕ)
      → Reach returns size p
      → get_elem? p.workers i ≡ some receiving
      → ((q : ThreadPool Job) → turn returns p i ≢ some q)
      → Perm p.sent ((p.returned ++ p.crashed) ++ running_jobs p.workers)
  unfolding turn
  recv_is_complete size p i r w stuck =
      let o = Reach-IsOrdered returns size p r in
      let drained =
        empty_channel p.channel
          (λ ch. let (q, e) = recv_turn_moves p i p.channel ch in stuck q (rw w e)) in
      let there = alive-has_receiver p.workers i receiving w (omega arith) in
      rw (still_there returns p o there, drained, append-nil p.received) o.started

  -- At rest every job has been run: if, while the pool is not dropped, no thread can move and fewer
  -- than `size` jobs have panicked, then the jobs sent are, each as often, those that returned and
  -- those that panicked.
  pub rest_is_complete :
      (size : ℕ) (p : ThreadPool Job)
      → Reach returns size p
      → p.sender ≡ true
      → length p.crashed < size
      → ¬ CanMove p
      → Perm p.sent (p.returned ++ p.crashed)
  rest_is_complete size p r s few stuck =
      let o = Reach-IsOrdered returns size p r in
      let drained = empty_channel p.channel (λ ch. stuck (no_deadlock size p r s few ch)) in
      let idle = none_running p.workers (λ i job w. stuck (runner_moves p i job w)) in
      let c = Reach-IsCounted returns size p r in
      let there : has_receiver p.workers ≡ true =
        rw (has_receiver-alive p.workers) (ground (arith, c.deaths s)) in
      rw (still_there returns p o there, drained, append-nil p.received)
        (rw (idle, append-nil (p.returned ++ p.crashed)) at o.started)
