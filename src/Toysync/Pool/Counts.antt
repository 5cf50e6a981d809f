-- ===== src/Toysync/Pool/Counts.antt =====
-- The list of workers under one write: weighted counts, and the jobs that are running.
use mathlib.Core.List.{Perm, perm_append_comm}
use mathlib.Core.List.Perm
use mathlib.Core.Option.{some-injective}
use benchmark_reverse_proxie.Common.{
  ℕ, zero, suc, ◌+◌, ◌*◌, subst, sym, ◌∙◌, ap, length, ◌≤◌, ◌≡◌, ◌≢◌, refl, ◌⊎◌, true, false, List,
  [], ◌∷◌, ◌++◌, some, arith, get_elem?, set, replicate, ltb, append_assoc, ltb→lt, ◌<◌, Bool-cases,
  inl, inr,
}
use benchmark_reverse_proxie.Toysync.Pool.{
  Worker, waiting, receiving, running, dead, has_receiver, kept,
}

pub total {ℓ} : {A : Type ℓ} → (A → ℕ) → List A → ℕ
total w [] = 0
total w (x ∷ xs) = w x + total w xs

pub total-set {ℓ} :
    {A : Type ℓ} (w : A → ℕ) (xs : List A) (i : ℕ) (a b : A)
    → get_elem? xs i ≡ some a
    → total w (set xs i b) + w a ≡ total w xs + w b
unfolding total
total-set w [] i a b h = cc
total-set w (x ∷ xs) zero a b h = ground arith
total-set w (x ∷ xs) (suc i) a b h = omega (arith, total-set w xs i a b h)

pub total-replicate {ℓ} :
    {A : Type ℓ} (w : A → ℕ) (n : ℕ) (a : A) → total w (replicate n a) ≡ n * w a
unfolding total
total-replicate w zero a = omega arith
total-replicate w (suc n) a = omega (arith, total-replicate w n a)

module _ {ℓ} {A : Type ℓ} (w : A → ℕ) where
  -- A positive count comes from an element that counts.
  pub total-found :
      (xs : List A) → 0 < total w xs → (i : ℕ) × (a : A) × (get_elem? xs i ≡ some a) × (0 < w a)
  unfolding total
  total-found [] h = absurd (omega arith)
  total-found (x ∷ xs) h = elim (Bool-cases (ltb 0 (w x))) [
    | inl here ↦ (0, x, refl, ltb→lt 0 (w x) here)
    | inr there ↦ let (i, a, e, p) = total-found xs (ground arith) in (suc i, a, e, p)
  ]

  pub total-at : (xs : List A) (i : ℕ) (a : A) → get_elem? xs i ≡ some a → w a ≤ total w xs
  unfolding total
  total-at [] i a h = cc
  total-at (x ∷ xs) zero a h = ground arith
  total-at (x ∷ xs) (suc i) a h = omega (arith, total-at xs i a h)

module _ {Job : Type 0} where
  abbrev pub alive : Worker Job → ℕ
  alive dead = 0
  alive _ = 1

  abbrev pub holding : Worker Job → ℕ
  holding receiving = 1
  holding _ = 0

  abbrev pub job_of : Worker Job → List Job
  job_of (running job) = job ∷ []
  job_of _ = []

  pub running_jobs : List (Worker Job) → List Job
  running_jobs [] = []
  running_jobs (x ∷ ws) = job_of x ++ running_jobs ws

  pub has_receiver-alive : (ws : List (Worker Job)) → has_receiver ws ≡ ltb 0 (total alive ws)
  unfolding has_receiver total
  has_receiver-alive [] = refl
  has_receiver-alive (dead ∷ ws) = ground (arith, has_receiver-alive ws)
  has_receiver-alive (_ ∷ ws) = ground arith

  -- A thread that has not ended keeps the receiver.
  pub alive-has_receiver :
      (ws : List (Worker Job)) (i : ℕ) (a : Worker Job)
      → get_elem? ws i ≡ some a
      → 0 < alive a
      → has_receiver ws ≡ true
  alive-has_receiver ws i a w h =
      rw (has_receiver-alive ws) (ground (arith, total-at alive ws i a w))

  pub set-has_receiver :
      (ws : List (Worker Job)) (i : ℕ) (a b : Worker Job)
      → get_elem? ws i ≡ some a
      → 0 < alive b
      → has_receiver (set ws i b) ≡ true
  set-has_receiver ws i a b w h =
      rw (has_receiver-alive (set ws i b))
        (ground (arith, total-set alive ws i a b w, total-at alive ws i a w))

  -- What waits stays in the channel as long as a thread is left.
  pub kept-cases :
      (ws : List (Worker Job)) (jobs : List Job)
      → ((has_receiver ws ≡ true) × (kept ws jobs ≡ jobs))
        ⊎ ((has_receiver ws ≡ false) × (kept ws jobs ≡ []))
  unfolding kept
  kept-cases ws jobs = elim (Bool-cases (has_receiver ws)) [
    | inl there ↦ inl (there, rw there refl)
    | inr gone ↦ inr (gone, rw gone refl)
  ]

  pub kept-nil : (ws : List (Worker Job)) (jobs : List Job) → jobs ≡ [] → kept ws jobs ≡ []
  kept-nil ws jobs h = elim (kept-cases ws jobs) [
    | inl (there, same) ↦ same ∙ h
    | inr (gone, nothing) ↦ nothing
  ]

  pub kept_le : (ws : List (Worker Job)) (jobs : List Job) → length (kept ws jobs) ≤ length jobs
  kept_le ws jobs = elim (kept-cases ws jobs) [
    | inl (there, same) ↦ rw same (omega arith)
    | inr (gone, nothing) ↦ rw nothing (omega arith)
  ]

  swap_front : (xs ys zs : List Job) → Perm (xs ++ (ys ++ zs)) (ys ++ (xs ++ zs))
  swap_front xs ys zs =
      rw (← append_assoc xs ys zs, ← append_assoc ys xs zs)
        (Perm.append_right zs (perm_append_comm xs ys))

  -- Where `a` gives way to `b`, so do their jobs.
  pub running_jobs-set :
      (ws : List (Worker Job)) (i : ℕ) (a b : Worker Job)
      → get_elem? ws i ≡ some a
      → Perm (job_of a ++ running_jobs (set ws i b)) (job_of b ++ running_jobs ws)
  unfolding running_jobs
  running_jobs-set [] i a b h = cc
  running_jobs-set (x ∷ ws) zero a b h =
      subst
        (λ y.
          Perm (job_of a ++ (job_of b ++ running_jobs ws))
            (job_of b ++ (job_of y ++ running_jobs ws)))
        (sym (some-injective x a h)) (swap_front (job_of a) (job_of b) (running_jobs ws))
  running_jobs-set (x ∷ ws) (suc i) a b h = Perm.trans (swap_front (job_of a) (job_of x) _) (
      Perm.trans (Perm.append_left (job_of x) (running_jobs-set ws i a b h))
        (swap_front (job_of x) (job_of b) _))

  pub running_jobs-replicate : (n : ℕ) → running_jobs (replicate n waiting) ≡ []
  unfolding running_jobs
  running_jobs-replicate zero = refl
  running_jobs-replicate (suc n) = running_jobs-replicate n

  pub none_running :
      (ws : List (Worker Job))
      → ((i : ℕ) (job : Job) → get_elem? ws i ≢ some (running job))
      → running_jobs ws ≡ []
  unfolding running_jobs
  none_running [] h = refl
  none_running (running job ∷ ws) h = absurd (h 0 job refl)
  none_running (waiting ∷ ws) h = none_running ws (λ i job. h (suc i) job)
  none_running (receiving ∷ ws) h = none_running ws (λ i job. h (suc i) job)
  none_running (dead ∷ ws) h = none_running ws (λ i job. h (suc i) job)

  pub all_dead : (ws : List (Worker Job)) → total alive ws ≡ 0 → ws ≡ replicate (length ws) dead
  unfolding total
  all_dead [] h = refl
  all_dead (dead ∷ ws) h = ap (λ l. dead ∷ l) (all_dead ws (omega (arith, h)))
  all_dead (waiting ∷ ws) h = absurd (omega (arith, h))
  all_dead (receiving ∷ ws) h = absurd (omega (arith, h))
  all_dead (running job ∷ ws) h = absurd (omega (arith, h))
