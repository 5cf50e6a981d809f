-- ===== src/Runner/Success/Alone.antt =====
-- src/main.rs: the servers that run while a benchmark that succeeds asks its tools.
use mathlib.Core.List.{append_cancel_left}
use mathlib.Core.Option.{some-injective}
use benchmark_reverse_proxie.Common.{
  zero, suc, ◌≡◌, refl, sym, ap, ◌∙◌, List, [], ◌∷◌, ◌++◌, subst, All, All-append, Bool-cases, inl,
  inr,
}
use benchmark_reverse_proxie.Common.Bytes.{Bytes, bytes}
use benchmark_reverse_proxie.Http.{eq_bytes}
use benchmark_reverse_proxie.Runner.System.{
  Op, sleep, current_dir, create_dir_all, create_file, write_all, output, spawn, wait, kill_child,
  send_sigterm, Os, M,
}
use benchmark_reverse_proxie.Runner.Servers.{Server}
use benchmark_reverse_proxie.Runner.Bench.{bench_http_origin, bench_http_proxy}
use benchmark_reverse_proxie.Runner.Monitor.{state, state-append, Allows, Ended}
use benchmark_reverse_proxie.Runner.Processes.{
  Process, after, running, Contains, IsUp, is_tool, Measured, origin, proxy, Allowed,
}
use benchmark_reverse_proxie.Runner.Processes.Keeps.{Leads}
use benchmark_reverse_proxie.Runner.Processes.Benches.{origin_To, proxy_To}
use benchmark_reverse_proxie.Runner.Success.{File, Ask, measuring, asked, Runs}
use benchmark_reverse_proxie.Runner.Success.Steps.{asks}

-- The one process is the server's.
abbrev pub Alone : Os → Server → List Process → Type 0
Alone os server ps = (p : Process) × (ps ≡ p ∷ []) × IsUp os server p

-- The two processes are the proxy's and the origin server's.
abbrev pub Before : Os → Server → Server → List Process → Type 0
Before os front behind ps = (p q : Process) × (ps ≡ p ∷ q ∷ []) × IsUp os front p × IsUp os behind q

module _ (os : Os) where
  module _ (origins proxies : List Server) (behind : Server) where
    abbrev May : Ask → Type 0
    May a = Allowed os origins proxies behind (running os a.0) a.1

    measuring-May :
        (log : List Op) (op : Op)
        → Allowed os origins proxies behind (running os log) op
        → All May (measuring log op)
    measuring-May log (output program args) h = elim (Bool-cases (is_tool program)) [
      | inl tool ↦ rw tool (h, tt)
      | inr other ↦ rw other tt
    ]
    measuring-May log (sleep n) h = tt
    measuring-May log current_dir h = tt
    measuring-May log (create_dir_all p) h = tt
    measuring-May log (create_file p) h = tt
    measuring-May log (write_all p c) h = tt
    measuring-May log (spawn d p a) h = tt
    measuring-May log (kill_child p) h = tt
    measuring-May log (send_sigterm p) h = tt
    measuring-May log (wait p) h = tt

    asked-May :
        (log : List Op) (ps : List Process) (ops : List Op)
        → running os log ≡ ps
        → Allows (after os) (Allowed os origins proxies behind) log ps ops
        → All May (asked log ops)
    asked-May log ps [] e h = tt
    asked-May log ps (op ∷ ops) e h =
        let now = subst (λ s. Allowed os origins proxies behind s op) (sym e) h.0 in
        All-append May (measuring log op) _ (measuring-May log op now) (
          asked-May (log ++ op ∷ []) (after os log ps op) ops
            (state-append (after os) [] [] log (op ∷ []) ∙ ap (λ s. after os log s op) e) h.1)

    -- What was asked while the action ran was allowed.
    pub Runs-May :
        {A : Type 0} (m : M A) (log : List Op) (a : A) (files : List File) (xs : List Ask)
        → running os log ≡ []
        → Runs m log a files xs
        → Leads os origins proxies behind [] (λ b. []) m
        → All May xs
    Runs-May m log a files xs quiet run keeps =
        let (new, e, allowed, ended) = keeps.at log in
        let same : new ≡ run.new =
          append_cancel_left log new run.new (sym e ∙ ap (λ x. x.1) run.returns) in
        subst (λ l. All May l) (ap (λ l. asked log l) same ∙ run.measures)
          (asked-May log [] new quiet allowed)

    -- No process is left.
    pub Leads-quiet :
        {A : Type 0} (m : M A) (log : List Op) (a : A) (files : List File) (xs : List Ask)
        → running os log ≡ []
        → Runs m log a files xs
        → Leads os origins proxies behind [] (λ b. []) m
        → running os (m log).1 ≡ []
    Leads-quiet m log a files xs quiet run keeps =
        let (new, e, allowed, ended) = keeps.at log in
        let none_left : state (after os) log [] new ≡ [] =
          subst (λ x. Ended (after os) (Allowed os origins proxies behind) log [] (λ b. []) new x)
            (ap (λ x. x.0) run.returns) ended in
        ap (running os) e
        ∙ state-append (after os) [] [] log new
        ∙ ap (λ s. state (after os) log s new) quiet
        ∙ none_left

  only_one : (server s : Server) → Contains (server ∷ []) s → server ≡ s
  only_one server s (zero, e) = some-injective server s e
  only_one server s (suc i, e) = cc

  nothing : (s : Server) → Contains [] s → ⊥
  nothing s (i, e) = cc

  Measured-Alone :
      (server behind : Server) (ps : List Process) (url : Bytes)
      → Measured os (server ∷ []) [] behind ps url
      → Alone os server ps
  Measured-Alone server behind ps url (origin s p e found up port) =
      (p, e, subst (λ x. IsUp os x p) (sym (only_one server s found)) up)
  Measured-Alone server behind ps url (proxy s p q e found up down port) = absurd (nothing s found)

  Measured-Before :
      (server behind : Server) (ps : List Process) (url : Bytes)
      → Measured os [] (server ∷ []) behind ps url
      → Before os server behind ps
  Measured-Before server behind ps url (origin s p e found up port) = absurd (nothing s found)
  Measured-Before server behind ps url (proxy s p q e found up down port) =
      (p, q, e, subst (λ x. IsUp os x p) (sym (only_one server s found)) up, down)

  pub origin-Alone :
      (server : Server) (log c o k : List Op) (files : List File)
      → running os log ≡ []
      → Runs (bench_http_origin os server) log tt files (asks (bytes "http://localhost:3000") c o k)
      → Alone os server (running os c)
        × Alone os server (running os o)
        × Alone os server (running os k)
  unfolding eq_bytes
  origin-Alone server log c o k files quiet run =
      let may =
        Runs-May (server ∷ []) [] server _ log tt files _ quiet run
          (origin_To os (server ∷ []) [] server server (0, refl)) in
      (
        Measured-Alone server server _ _ may.0,
        Measured-Alone server server _ _ may.1.0,
        Measured-Alone server server _ _ may.1.1.0,
      )

  pub proxy-Before :
      (server behind : Server) (log c o k : List Op) (files : List File)
      → running os log ≡ []
      → Runs
          (bench_http_proxy os server behind)
          log
          tt
          files
          (asks (bytes "http://localhost:3001") c o k)
      → Before os server behind (running os c)
        × Before os server behind (running os o)
        × Before os server behind (running os k)
  unfolding eq_bytes
  proxy-Before server behind log c o k files quiet run =
      let may =
        Runs-May [] (server ∷ []) behind _ log tt files _ quiet run
          (proxy_To os [] (server ∷ []) behind server (0, refl)) in
      (
        Measured-Before server behind _ _ may.0,
        Measured-Before server behind _ _ may.1.0,
        Measured-Before server behind _ _ may.1.1.0,
      )
