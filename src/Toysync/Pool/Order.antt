-- ===== src/Toysync/Pool/Order.antt =====
-- Which jobs run, and in which order.
use mathlib.Core.List.{Perm, perm_append_singleton, perm_middle}
use mathlib.Core.List.Perm
use benchmark_reverse_proxie.Common.{
  ℕ, ◌≡◌, refl, sym, ap, ◌∙◌, Bool, true, false, List, [], ◌∷◌, ◌++◌, some, get_elem?, set,
  append_assoc, append-nil, arith, inl, inr, All, All-append,
}
use benchmark_reverse_proxie.Toysync.Pool.{
  Worker, waiting, receiving, running, dead, ThreadPool, has_receiver, kept, close, new, Step, send,
  drops, moves, Reach,
}
use benchmark_reverse_proxie.Toysync.Pool.Counts.{
  job_of, running_jobs, running_jobs-set, running_jobs-replicate, alive-has_receiver,
  set-has_receiver, kept-cases,
}
use benchmark_reverse_proxie.Toysync.Pool.Moves.{
  Move, takes_lock, meets_poison, receives, meets_close, ends_job, crashes, turn-Move,
  execute-sends, execute_there, Reach-induction, new-waits,
}

module _ {Job : Type 0} where
  -- What was received is what has ended or runs, each as often.
  abbrev Started : List Job → List Job → List Job → List (Worker Job) → Type 0
  Started received returned crashed ws = Perm received ((returned ++ crashed) ++ running_jobs ws)

  module _ (r ok bad : List Job) (ws : List (Worker Job)) (i : ℕ) (s : Started r ok bad ws) where
    Started-keep :
        (a b : Worker Job)
        → get_elem? ws i ≡ some a
        → job_of a ≡ []
        → job_of b ≡ []
        → Started r ok bad (set ws i b)
    Started-keep a b w ea eb =
        Perm.trans s
          (Perm.append_left (ok ++ bad) (Perm.symm (rw (ea, eb) at (running_jobs-set ws i a b w))))

    Started-receive :
        (job : Job)
        → get_elem? ws i ≡ some receiving
        → Started (r ++ job ∷ []) ok bad (set ws i (running job))
    Started-receive job w = Perm.trans (perm_append_singleton job r) (
        Perm.trans (Perm.cons job s) (
          Perm.trans (Perm.symm (perm_middle (ok ++ bad) (running_jobs ws))) (
            Perm.append_left (ok ++ bad)
              (Perm.symm (running_jobs-set ws i receiving (running job) w)))))

    module _ (job : Job) (b : Worker Job) (idle : job_of b ≡ [])
        (w : get_elem? ws i ≡ some (running job)) where
      ended : Perm r ((ok ++ bad) ++ (job ∷ running_jobs (set ws i b)))
      ended = Perm.trans s (
          Perm.append_left (ok ++ bad)
            (Perm.symm (rw idle at (running_jobs-set ws i (running job) b w))))

      Started-crash : Started r ok (bad ++ job ∷ []) (set ws i b)
      Started-crash =
          rw
            (
              ← append_assoc ok bad (job ∷ []),
              append_assoc (ok ++ bad) (job ∷ []) (running_jobs (set ws i b)),
            )
            ended

      Started-return : Started r (ok ++ job ∷ []) bad (set ws i b)
      Started-return = Perm.trans ended (
          Perm.trans (perm_middle (ok ++ bad) (running_jobs (set ws i b))) (
            Perm.append_right {l₁ = job ∷ (ok ++ bad)} {l₂ = (ok ++ job ∷ []) ++ bad}
              (running_jobs (set ws i b))
              (rw (append_assoc ok (job ∷ []) bad) (Perm.symm (perm_middle ok bad)))))

module _ {Job : Type 0} (returns : Job → Bool) where
  pub record IsOrdered (p : ThreadPool Job) : Type 0 where
    pub lost : List Job
    pub fifo : p.sent ≡ p.received ++ (p.channel ++ lost)
    pub none_lost : has_receiver p.workers ≡ true → lost ≡ []
    pub emptied : has_receiver p.workers ≡ false → p.channel ≡ []
    pub started : Perm p.received ((p.returned ++ p.crashed) ++ running_jobs p.workers)
    pub good : All (λ job. returns job ≡ true) p.returned
    pub bad : All (λ job. returns job ≡ false) p.crashed

  module _ (p : ThreadPool Job) (o : IsOrdered p) where
    -- As long as a thread is left, what was sent was received or waits.
    pub still_there : has_receiver p.workers ≡ true → p.sent ≡ p.received ++ p.channel
    still_there h =
        o.fifo
        ∙ ap (λ l. p.received ++ (p.channel ++ l)) (o.none_lost h)
        ∙ ap (λ l. p.received ++ l) (append-nil p.channel)

    -- Where a thread ends, what waits stays in the channel or is lost.
    ends-lost :
        (ws : List (Worker Job))
        → has_receiver p.workers ≡ true
        → (lost : List Job) × (p.sent ≡ p.received ++ (kept ws p.channel ++ lost))
          × (has_receiver ws ≡ true → lost ≡ [])
          × (has_receiver ws ≡ false → kept ws p.channel ≡ [])
    ends-lost ws h = elim (kept-cases ws p.channel) [
      | inl (there, same) ↦ (o.lost, rw same o.fifo, λ k. o.none_lost h, λ k. cc)
      | inr (gone, nothing) ↦ (p.channel, rw nothing (still_there h), λ k. cc, λ k. nothing)
    ]

  Move-IsOrdered : (p q : ThreadPool Job) (i : ℕ) → Move returns p i q → IsOrdered p → IsOrdered q
  Move-IsOrdered p q i (takes_lock w l e) o = rw e (record {
    lost = o.lost;
    fifo = o.fifo;
    none_lost = λ k. o.none_lost (alive-has_receiver p.workers i waiting w (omega arith));
    emptied = λ k. let there = set-has_receiver p.workers i waiting receiving w (omega arith) in cc;
    started =
        Started-keep p.received p.returned p.crashed p.workers i o.started waiting receiving w refl
          refl;
    good = o.good;
    bad = o.bad;
  })
  Move-IsOrdered p q i (meets_poison w l e) o =
      let (lost, fifo, none_lost, emptied) =
        ends-lost p o (set p.workers i dead)
          (alive-has_receiver p.workers i waiting w (omega arith)) in
      rw e (record {
        lost = lost;
        fifo = fifo;
        none_lost = none_lost;
        emptied = emptied;
        started =
            Started-keep p.received p.returned p.crashed p.workers i o.started waiting dead w refl
              refl;
        good = o.good;
        bad = o.bad;
      })
  Move-IsOrdered p q i (receives job rest w c e) o =
      let there = alive-has_receiver p.workers i receiving w (omega arith) in
      rw e (record {
        lost = [];
        fifo =
            still_there p o there
            ∙ ap (λ l. p.received ++ l) c
            ∙ sym (append_assoc p.received (job ∷ []) rest)
            ∙ ap (λ l. (p.received ++ job ∷ []) ++ l) (sym (append-nil rest));
        none_lost = λ k. refl;
        emptied = λ k.
            let still = set-has_receiver p.workers i receiving (running job) w (omega arith) in cc;
        started = Started-receive p.received p.returned p.crashed p.workers i o.started job w;
        good = o.good;
        bad = o.bad;
      })
  Move-IsOrdered p q i (meets_close w c s e) o = rw e (record {
    lost = o.lost;
    fifo = o.fifo;
    none_lost = λ k. o.none_lost (alive-has_receiver p.workers i receiving w (omega arith));
    emptied = λ k. c;
    started =
        Started-keep p.received p.returned p.crashed p.workers i o.started receiving dead w refl
          refl;
    good = o.good;
    bad = o.bad;
  })
  Move-IsOrdered p q i (ends_job job w ok e) o = rw e (record {
    lost = o.lost;
    fifo = o.fifo;
    none_lost = λ k. o.none_lost (alive-has_receiver p.workers i (running job) w (omega arith));
    emptied =
        λ k. let there = set-has_receiver p.workers i (running job) waiting w (omega arith) in cc;
    started =
        Started-return p.received p.returned p.crashed p.workers i o.started job waiting refl w;
    good = All-append _ p.returned (job ∷ []) o.good (ok, tt);
    bad = o.bad;
  })
  Move-IsOrdered p q i (crashes job w ko e) o =
      let (lost, fifo, none_lost, emptied) =
        ends-lost p o (set p.workers i dead)
          (alive-has_receiver p.workers i (running job) w (omega arith)) in
      rw e (record {
        lost = lost;
        fifo = fifo;
        none_lost = none_lost;
        emptied = emptied;
        started =
            Started-crash p.received p.returned p.crashed p.workers i o.started job dead refl w;
        good = o.good;
        bad = All-append _ p.crashed (job ∷ []) o.bad (ko, tt);
      })

  pub Step-IsOrdered : (p q : ThreadPool Job) → Step returns p q → IsOrdered p → IsOrdered q
  unfolding close
  Step-IsOrdered p q (send job open' h) o =
      let there = execute_there returns p q job h in
      rw (execute-sends returns p q job h) (record {
        lost = [];
        fifo =
            ap (λ l. l ++ job ∷ []) (still_there p o there)
            ∙ append_assoc p.received p.channel (job ∷ [])
            ∙ ap (λ l. p.received ++ l) (sym (append-nil (p.channel ++ job ∷ [])));
        none_lost = λ k. refl;
        emptied = λ k. cc;
        started = o.started;
        good = o.good;
        bad = o.bad;
      })
  Step-IsOrdered p q (drops e) o = rw e (record {
    lost = o.lost;
    fifo = o.fifo;
    none_lost = o.none_lost;
    emptied = o.emptied;
    started = o.started;
    good = o.good;
    bad = o.bad;
  })
  Step-IsOrdered p q (moves i h) o = Move-IsOrdered p q i (turn-Move returns p i q h) o

  new-IsOrdered : (size : ℕ) (p : ThreadPool Job) → new size ≡ some p → IsOrdered p
  new-IsOrdered size p h = rw (new-waits returns size p h).1 (record {
    lost = [];
    fifo = refl;
    none_lost = λ k. refl;
    emptied = λ k. refl;
    started = rw (running_jobs-replicate {Job = Job} size) (Perm.refl []);
    good = tt;
    bad = tt;
  })

  -- However the threads interleave: what was sent is, in this order, what was received, what waits in
  -- the channel and what is lost; nothing is lost as long as a thread is left, and nothing waits once
  -- none is. So jobs are received in the order in which they were sent, and none twice. What was
  -- received is, each job as often, what has returned, has crashed or runs now. Those that returned do
  -- return, and those that crashed do panic.
  pub Reach-IsOrdered : (size : ℕ) (p : ThreadPool Job) → Reach returns size p → IsOrdered p
  Reach-IsOrdered size p r =
      Reach-induction returns IsOrdered size (new-IsOrdered size) Step-IsOrdered p r
