-- ===== src/Runner/Processes/Benches.antt =====
-- src/main.rs: which processes run while a benchmark goes on.
use benchmark_reverse_proxie.Common.{◌≡◌, refl, List, [], ◌∷◌, All, length, ◌≤◌, arith}
use benchmark_reverse_proxie.Common.Bytes.{Bytes}
use benchmark_reverse_proxie.Runner.System.{create_dir_all, perform, Os, Child, M, ◌>>=◌}
use benchmark_reverse_proxie.Runner.Servers.{
  Server, rust, nginx, multi_process, zig, spawn_server, kill_server,
}
use benchmark_reverse_proxie.Runner.Bench.{
  wait_and_write_output, measure, bench_http_origin, bench_http_proxy, bench_origins, bench_proxies,
}
use benchmark_reverse_proxie.Runner.Monitor.{Keeps-pure, Keeps-unwrap, Keeps-bind}
use benchmark_reverse_proxie.Runner.Processes.{
  Process, end, after, started, Contains, IsUp, Measured, Allowed,
}
use benchmark_reverse_proxie.Runner.Processes.Keeps.{
  touched, Leads, Leads-then, Stays-sleep, Stays-create_dir_all, Stays-measure, Leads-spawn_server,
  Leads-kill_server, Leads-wait_and_write_output,
}

touched_none : (server : Server) → touched server [] ≡ []
touched_none (rust n) = refl
touched_none (nginx config_dir) = refl
touched_none (multi_process n) = refl
touched_none (zig n) = refl

touched_one :
    (server : Server) (q : Process)
    → (q' : Process) × (touched server (q ∷ []) ≡ q' ∷ []) × (q'.pid ≡ q.pid)
touched_one (rust n) q = (q, refl, refl)
touched_one (nginx config_dir) q = (q, refl, refl)
touched_one (multi_process n) q = (end q, refl, refl)
touched_one (zig n) q = (q, refl, refl)

module _ (os : Os) (all all_proxies : List Server) (behind : Server) where
  abbrev pub To : {A : Type 0} → List Process → (A → List Process) → M A → Type 0
  To ps qs action = Leads os all all_proxies behind ps qs action

  pub To-then :
      {A B : Type 0} (ps qs : List Process) (action : M A) (f : A → M B)
      → To ps (λ a. qs) action
      → ((a : A) → To qs (λ b. []) (f a))
      → To ps (λ b. []) (action >>= f)
  To-then ps qs = Leads-then os all all_proxies behind ps qs []

  To-spawn :
      (server : Server) (ps : List Process) (f : Child → M Unit)
      → length ps ≤ 1
      → ((child : Child) → To (started os server child ∷ ps) (λ b. []) (f child))
      → To ps (λ b. []) (spawn_server os server >>= f)
  To-spawn server ps f few k =
      Keeps-bind (after os) (Allowed os all all_proxies behind) ps
        (λ child. started os server child ∷ ps) (λ b. []) _ f
        (Leads-spawn_server os all all_proxies behind ps server few) k

  -- The end of a server, below which the processes `rest` run.
  To-stop :
      (server : Server) (proc : Child) (p : Process) (rest : List Process) (dir filename : Bytes)
      (f : Unit → M Unit)
      → p.pid ≡ proc.pid
      → ((a : Unit) → To (touched server rest) (λ b. []) (f a))
      → To
          (p ∷ rest)
          (λ b. [])
          (kill_server os server proc >>= λ a. wait_and_write_output os proc dir filename >>= f)
  To-stop server proc p rest dir filename f same k =
      To-then (p ∷ rest) (end p ∷ touched server rest) _ _
        (Leads-kill_server os all all_proxies behind rest p proc same server)
        λ a.
          To-then (end p ∷ touched server rest) (touched server rest) _ _
            (Leads-wait_and_write_output os all all_proxies behind (touched server rest) (end p)
              proc same dir filename)
            k

  To-stop_last :
      (server : Server) (proc : Child) (p : Process) (dir filename : Bytes)
      → p.pid ≡ proc.pid
      → To
          (p ∷ [])
          (λ b. [])
          (kill_server os server proc >>= λ a. wait_and_write_output os proc dir filename)
  To-stop_last server proc p dir filename same =
      To-then (p ∷ []) (end p ∷ []) _ _
        (rw (touched_none server) at
          (Leads-kill_server os all all_proxies behind [] p proc same server))
        λ a. Leads-wait_and_write_output os all all_proxies behind [] (end p) proc same dir filename

  To-measure :
      (ps : List Process) (url dir : Bytes) (f : Unit → M Unit)
      → Measured os all all_proxies behind ps url
      → ((a : Unit) → To ps (λ b. []) (f a))
      → To ps (λ b. []) (perform os (create_dir_all dir) >>= λ a. measure os url dir >>= f)
  To-measure ps url dir f up k =
      To-then ps ps _ _ (Stays-create_dir_all os all all_proxies behind ps dir)
        λ a. To-then ps ps _ _ (Stays-measure os all all_proxies behind ps url up dir) k

  started-IsUp : (server : Server) (child : Child) → IsUp os server (started os server child)
  started-IsUp server child = record { program = refl; args = refl; unended = refl }

  pub origin_To :
      (origin : Server) → Contains all origin → To [] (λ a. []) (bench_http_origin os origin)
  unfolding bench_http_origin
  origin_To origin found = To-then [] [] _ _ (Stays-sleep os all all_proxies behind [] 10) λ a.
      To-spawn origin [] _ (omega arith) λ proc.
        let p = started os origin proc in
        To-measure (p ∷ []) _ _ _
          (Measured.origin origin p refl found (started-IsUp origin proc) refl)
          λ b. To-stop_last origin proc p _ _ refl

  pub proxy_To :
      (proxy : Server)
      → Contains all_proxies proxy
      → To [] (λ a. []) (bench_http_proxy os proxy behind)
  unfolding bench_http_proxy
  proxy_To proxy found = To-then [] [] _ _ (Stays-sleep os all all_proxies behind [] 10) λ a.
      To-spawn behind [] _ (omega arith) λ back.
        To-spawn proxy (started os behind back ∷ []) _ (omega arith) λ front.
          let p = started os proxy front in
          let q = started os behind back in
          let (q', left, same) = touched_one proxy q in
          To-measure (p ∷ q ∷ []) _ _ _
            (Measured.proxy proxy p q refl found (started-IsUp proxy front)
              (started-IsUp behind back) refl)
            λ b.
              To-stop proxy front p (q ∷ []) _ _ _ refl
                λ c. rw left (To-stop_last behind back q' _ _ same)

  pub origins_To :
      (servers : List Server)
      → All (Contains all) servers
      → To [] (λ a. []) (bench_origins os servers)
  unfolding bench_origins
  origins_To [] h = Keeps-pure (after os) (Allowed os all all_proxies behind) [] _ tt refl
  origins_To (origin ∷ later) h =
      To-then [] [] _ _
        (Keeps-unwrap (after os) (Allowed os all all_proxies behind) [] _ _ (origin_To origin h.0))
        λ a. origins_To later h.1

  pub proxies_To :
      (servers : List Server)
      → All (Contains all_proxies) servers
      → To [] (λ a. []) (bench_proxies os behind servers)
  unfolding bench_proxies
  proxies_To [] h = Keeps-pure (after os) (Allowed os all all_proxies behind) [] _ tt refl
  proxies_To (proxy ∷ later) h =
      To-then [] [] _ _
        (Keeps-unwrap (after os) (Allowed os all all_proxies behind) [] _ _ (proxy_To proxy h.0))
        λ a. proxies_To later h.1
