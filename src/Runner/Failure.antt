-- ===== src/Runner/Failure.antt =====
-- src/main.rs and build.rs: that an action goes on as long as no operation fails, and how that
-- composes.
pub mod Main
use benchmark_reverse_proxie.Common.{
  ℕ, ◌≡◌, refl, sym, ap, ◌∙◌, ◌⊎◌, inl, inr, true, false, List, [], ◌∷◌, ◌++◌, append-nil,
  append_assoc, Option, some, All, Bool-cases, subst,
}
use benchmark_reverse_proxie.Common.Bytes.{Bytes, bytes}
use benchmark_reverse_proxie.Common.Bytes.Utf8.{is_utf8}
use benchmark_reverse_proxie.Runner.System.{
  Op, output, spawn, wait, Os, Result, ok, err, panicked, blocked, M, ◌>>=◌, pure, no_error, unwrap,
  unwrap_some, Child, perform, command_output, command_spawn, wait_child, wait_with_output, push,
}
use benchmark_reverse_proxie.Runner.Servers.{
  Server, rust, nginx, into_string, spawn_server, kill_server,
}
use benchmark_reverse_proxie.Runner.Bench.{
  cpu_power, write_file, run_curl, run_oha, wait_and_write_output, measure, bench_http_origin,
  bench_http_proxy, bench_origins, bench_proxies, benchmarks, main, build_dirs, build, origins,
  proxies,
}

-- `Other` is the one other reason for a panic than an operation that fails.
module _ (os : Os) (Other : Type 0) where
  -- Each of the operations succeeds where it stands, after `log`.
  abbrev pub AllGood : List Op → List Op → Type 0
  AllGood log [] = Unit
  AllGood log (op ∷ ops) = (os.fails log op ≡ false) × AllGood (log ++ op ∷ []) ops

  -- The last of the operations fails, and no other.
  abbrev pub FailsLast : List Op → List Op → Type 0
  FailsLast log new =
      (good : List Op) × (bad : Op) × (new ≡ good ++ bad ∷ [])
      × AllGood log good
      × (os.fails (log ++ good) bad ≡ true)

  -- Each of the operations succeeds, and then a process is waited for that does not end.
  abbrev pub WaitsLast : List Op → List Op → Type 0
  WaitsLast log new =
      (good : List Op) × (pid : ℕ) × (new ≡ good ++ wait pid ∷ [])
      × AllGood log good
      × (os.ends (log ++ good) pid ≡ false)

  abbrev pub Verdict : {A : Type 0} → List Op → List Op → Result A → Type 0
  Verdict log new (ok a) = AllGood log new
  Verdict log new err = FailsLast log new
  Verdict log new blocked = WaitsLast log new
  Verdict log new panicked = FailsLast log new ⊎ (AllGood log new × Other)

  -- The log grows by operations that succeed; if the action does not return then it ends at one that
  -- fails, or waits for a process that does not end.
  pub record Stops {A : Type 0} (m : M A) : Type 0 where
    pub at :
        (log : List Op) → (new : List Op) × ((m log).1 ≡ log ++ new) × Verdict log new (m log).0

  AllGood-append :
      (log xs ys : List Op) → AllGood log xs → AllGood (log ++ xs) ys → AllGood log (xs ++ ys)
  AllGood-append log [] ys h k = rw append-nil at k
  AllGood-append log (x ∷ xs) ys h k =
      (h.0, AllGood-append (log ++ x ∷ []) xs ys h.1 (rw (append_assoc log (x ∷ []) xs) k))

  FailsLast-append :
      (log xs ys : List Op) → AllGood log xs → FailsLast (log ++ xs) ys → FailsLast log (xs ++ ys)
  FailsLast-append log xs ys h (good, bad, e, g, f) = (
    xs ++ good,
    bad,
    ap (λ l. xs ++ l) e ∙ sym (append_assoc xs good (bad ∷ [])),
    AllGood-append log xs good h g,
    rw (← append_assoc log xs good) f,
  )

  Verdict-append :
      {A : Type 0} (log xs ys : List Op) (r : Result A)
      → AllGood log xs
      → Verdict (log ++ xs) ys r
      → Verdict log (xs ++ ys) r
  Verdict-append log xs ys (ok a) h v = AllGood-append log xs ys h v
  Verdict-append log xs ys err h v = FailsLast-append log xs ys h v
  Verdict-append log xs ys blocked h (good, pid, e, g, f) = (
    xs ++ good,
    pid,
    ap (λ l. xs ++ l) e ∙ sym (append_assoc xs good (wait pid ∷ [])),
    AllGood-append log xs good h g,
    rw (← append_assoc log xs good) f,
  )
  Verdict-append log xs ys panicked h (inl f) = inl (FailsLast-append log xs ys h f)
  Verdict-append log xs ys panicked h (inr (g, u)) = inr (AllGood-append log xs ys h g, u)

  pub Stops-pure : {A : Type 0} (a : A) → Stops (pure a)
  unfolding pure
  Stops-pure a = record { at = λ log. ([], sym (append-nil log), tt) }

  pub Stops-perform : (op : Op) → Stops (perform os op)
  unfolding perform
  Stops-perform op = record {
    at = λ log. (
      op ∷ [],
      refl,
      elim (Bool-cases (os.fails log op)) [
        | inl bad ↦ rw bad ([], op, refl, tt, rw append-nil bad)
        | inr good ↦ rw good (good, tt)
      ],
    );
  }

  bind_at :
      {A B : Type 0} (f : A → M B)
      → ((a : A) → Stops (f a))
      → (r : Result A) (log log' xs : List Op) → log' ≡ log ++ xs
      → Verdict log xs r
      → let out = ((λ (l : List Op). (r, log')) >>= f) log in
        (new : List Op) × (out.1 ≡ log ++ new) × Verdict log new out.0
  unfolding ◌>>=◌
  bind_at f s (ok a) log log' xs e v =
      let (ys, grown, w) = (s a).at log' in
      (
        xs ++ ys,
        grown ∙ ap (λ l. l ++ ys) e ∙ append_assoc log xs ys,
        Verdict-append log xs ys (f a log').0 v (subst (λ l. Verdict l ys (f a log').0) e w),
      )
  bind_at f s err log log' xs e v = (xs, e, v)
  bind_at f s panicked log log' xs e v = (xs, e, v)
  bind_at f s blocked log log' xs e v = (xs, e, v)

  pub Stops-bind :
      {A B : Type 0} (m : M A) (f : A → M B) → Stops m → ((a : A) → Stops (f a)) → Stops (m >>= f)
  unfolding ◌>>=◌
  Stops-bind m f h s = record {
    at = λ log. let (xs, e, v) = h.at log in bind_at f s (m log).0 log (m log).1 xs e v;
  }

  unwrapped :
      {A : Type 0} (log xs : List Op) (r : Result A)
      → Verdict log xs r
      → Verdict log xs (no_error r)
  unwrapped log xs (ok a) v = v
  unwrapped log xs err v = inl v
  unwrapped log xs panicked v = v
  unwrapped log xs blocked v = v

  pub Stops-unwrap : {A : Type 0} (m : M A) → Stops m → Stops (unwrap m)
  unfolding unwrap
  Stops-unwrap m h = record {
    at = λ log. let (xs, e, v) = h.at log in (xs, e, unwrapped log xs (m log).0 v);
  }

  pub Stops-into_string :
      (config_dir : Bytes)
      → (is_utf8 (push (push os.cwd config_dir) (bytes "nginx.conf")) ≡ false → Other)
      → Stops (unwrap_some (into_string (push (push os.cwd config_dir) (bytes "nginx.conf"))))
  unfolding unwrap_some
  Stops-into_string config_dir known =
      elim (Bool-cases (is_utf8 (push (push os.cwd config_dir) (bytes "nginx.conf")))) [
        | inl text ↦ record { at = λ log. rw text ([], sym (append-nil log), tt) }
        | inr no_text ↦ record {
          at = λ log. rw no_text ([], sym (append-nil log), inr (tt, known no_text));
        }
      ]

  pub Stops-command_output :
      (program : Bytes) (args : List Bytes) → Stops (command_output os program args)
  unfolding command_output
  Stops-command_output program args = record {
    at = λ log.
        (Stops-bind (perform os (output program args)) _ (Stops-perform (output program args))
            (λ a. Stops-pure (os.printed log (output program args)))).at
          log;
  }

  pub Stops-command_spawn :
      (dir : Option Bytes) (program : Bytes) (args : List Bytes)
      → Stops (command_spawn os dir program args)
  unfolding command_spawn
  Stops-command_spawn dir program args = record {
    at = λ log.
        (Stops-bind (perform os (spawn dir program args)) _ (Stops-perform (spawn dir program args))
            (λ a. Stops-pure (record { pid = os.new_pid log; piped = false }))).at
          log;
  }

  pub Stops-wait_child : (child : Child) → Stops (wait_child os child)
  unfolding wait_child
  Stops-wait_child child = record {
    at = λ log. elim (Bool-cases (os.ends log child.pid)) [
      | inl over ↦ rw over ((Stops-perform (wait child.pid)).at log)
      | inr never ↦
          rw never (wait child.pid ∷ [], refl, ([], child.pid, refl, tt, rw append-nil never))
    ];
  }

  pub Stops-wait_with_output : (child : Child) → Stops (wait_with_output os child)
  unfolding wait_with_output
  Stops-wait_with_output child = record {
    at = λ log. elim (Bool-cases (os.ends log child.pid)) [
      | inl there ↦ rw there (
          (Stops-bind (perform os (wait child.pid)) _ (Stops-perform (wait child.pid))
              (λ a. Stops-pure _)).at
            log)
      | inr never ↦
          rw never (wait child.pid ∷ [], refl, ([], child.pid, refl, tt, rw append-nil never))
    ];
  }

  pub ruleset stops_rules = (
    Stops-pure, Stops-perform, Stops-bind, Stops-unwrap, Stops-into_string, Stops-command_output,
    Stops-command_spawn, Stops-wait_with_output,
  )
