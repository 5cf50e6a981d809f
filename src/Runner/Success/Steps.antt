-- ===== src/Runner/Success/Steps.antt =====
-- src/main.rs: the steps of a benchmark where nothing fails.
use benchmark_reverse_proxie.Common.{
  ◌≡◌, refl, sym, ap, Bool, true, false, List, [], ◌∷◌, ◌++◌, append-nil, none, if◌then◌else◌,
}
use benchmark_reverse_proxie.Common.Bytes.{Bytes, bytes}
use benchmark_reverse_proxie.Http.{eq_bytes}
use benchmark_reverse_proxie.Runner.System.{
  Op, sleep, current_dir, output, kill_child, send_sigterm, Os, ok, unwrap_some, Child, perform,
  command_output, pure, ◌>>=◌, wait_with_output, push, as_i32,
}
use benchmark_reverse_proxie.Runner.Servers.{
  Server, rust, nginx, multi_process, zig, into_string, spawn_server, kill_server,
}
use benchmark_reverse_proxie.Runner.Bench.{
  oha_args, run_curl, run_oha, wait_and_write_output, measure,
}
use benchmark_reverse_proxie.Runner.Success.{
  IsReliable, Readable, File, Ask, Runs, Runs-pure, Runs-bind, Runs-perform, Runs-command_output,
  Runs-command_spawn, Runs-wait_with_output, Runs-write_file,
}

-- What curl and oha are asked for a URL.
abbrev pub curl : Bytes → Op
curl url = output (bytes "curl") (bytes "-sSD" ∷ bytes "-" ∷ url ∷ [])

abbrev pub oha : Bytes → Bool → Op
oha url keepalive = output (bytes "oha") (oha_args url keepalive)

-- The three runs of the tools, each with the operations before it.
abbrev pub asks : Bytes → (c o k : List Op) → List Ask
asks url c o k = (c, curl url) ∷ (o, oha url false) ∷ (k, oha url true) ∷ []

module _ (os : Os) where
  -- What curl and oha print for a URL, when so much has been done.
  abbrev pub curl_text : Bytes → List Op → Bytes
  curl_text url log = os.printed log (curl url)

  abbrev pub oha_text : Bytes → Bool → List Op → Bytes
  oha_text url keepalive log = os.printed log (oha url keepalive)

module _ (os : Os) (r : IsReliable os) where
  Runs-into_string :
      (config_dir : Bytes) (log : List Op)
      → Readable os (nginx config_dir)
      → let path = push (push os.cwd config_dir) (bytes "nginx.conf") in
        Runs (unwrap_some (into_string path)) log path [] []
  unfolding unwrap_some
  Runs-into_string config_dir log readable = record {
    new = [];
    returns = rw readable (
        ap (λ l. (ok (push (push os.cwd config_dir) (bytes "nginx.conf")), l))
          (sym (append-nil log)));
    writes = refl;
    measures = refl;
  }

  -- A server's process is started without a pipe.
  abbrev pub Started : Server → List Op → Type 0
  Started s log = (child : Child) × Runs (spawn_server os s) log child [] [] × (child.piped ≡ false)

  pub Runs-spawn_server : (s : Server) (log : List Op) → Readable os s → Started s log
  unfolding spawn_server unwrap_some
  Runs-spawn_server (rust n) log readable = (_, Runs-command_spawn os r none _ [] log, refl)
  Runs-spawn_server (multi_process n) log readable =
      (_, Runs-command_spawn os r none _ [] log, refl)
  Runs-spawn_server (zig n) log readable = (_, Runs-command_spawn os r none _ _ log, refl)
  Runs-spawn_server (nginx config_dir) log readable = (
    _,
    Runs-bind os r _ _ log tt _ [] [] [] [] (Runs-perform os r current_dir log) (
        Runs-bind os r _ _ _ _ _ [] [] [] [] (Runs-into_string config_dir _ readable)
          (Runs-command_spawn os r none (bytes "/usr/sbin/nginx") _ _)),
    refl,
  )

  pub Runs-kill_server :
      (s : Server) (proc : Child) (log : List Op) → Runs (kill_server os s proc) log tt [] []
  unfolding kill_server eq_bytes
  Runs-kill_server (rust n) proc log = Runs-perform os r (kill_child proc.pid) log
  Runs-kill_server (nginx config_dir) proc log =
      Runs-perform os r (send_sigterm (as_i32 proc.pid)) log
  Runs-kill_server (zig n) proc log = Runs-perform os r (kill_child proc.pid) log
  Runs-kill_server (multi_process n) proc log =
      Runs-bind os r _ _ log _ tt [] [] _ _ (Runs-command_output os r (bytes "sh") _ log)
        (Runs-pure os r tt _)

  -- After `kill_server` the process ends.
  pub kill_server-ends :
      (s : Server) (proc : Child) (log : List Op)
      → os.ends (kill_server os s proc log).1 proc.pid ≡ true
  unfolding kill_server perform command_output pure ◌>>=◌
  kill_server-ends (rust n) proc log = r.told log (kill_child proc.pid) proc.pid refl
  kill_server-ends (zig n) proc log = r.told log (kill_child proc.pid) proc.pid refl
  kill_server-ends (nginx config_dir) proc log =
      r.told log (send_sigterm (as_i32 proc.pid)) proc.pid refl
  kill_server-ends (multi_process n) proc log =
      let kill =
        output (bytes "sh")
          (bytes "-c" ∷ (bytes "pgrep -f " ++ (n ++ bytes " | xargs -r kill")) ∷ []) in
      rw (r.does log kill) (r.told log kill proc.pid (n, refl, refl))

  pub Runs-wait_and_write_output :
      (proc : Child) (dir filename : Bytes) (log : List Op)
      → proc.piped ≡ false
      → os.ends log proc.pid ≡ true
      → Runs (wait_and_write_output os proc dir filename) log tt ((push dir filename, []) ∷ []) []
  unfolding wait_and_write_output
  Runs-wait_and_write_output proc dir filename log p over =
      Runs-bind os r (wait_with_output os proc) _ log [] tt [] _ [] _
        (Runs-wait_with_output os r proc log p over) (Runs-write_file os r (push dir filename) [] _)

  -- The three measured files of a run, with what the tools printed.
  abbrev pub measured : Bytes → Bytes → List Op → List Op → List Op → List File
  measured url dir c o k =
      (push dir (bytes "curl.txt"), curl_text os url c)
      ∷ (push dir (bytes "oha-no-keepalive.json"), oha_text os url false o)
      ∷ (push dir (bytes "oha-keepalive.json"), oha_text os url true k)
      ∷ []

  Runs-run_curl :
      (url dir : Bytes) (log : List Op)
      → (c : List Op) × Runs
          (run_curl os url dir)
          log
          tt
          ((push dir (bytes "curl.txt"), curl_text os url c) ∷ [])
          ((c, curl url) ∷ [])
  unfolding run_curl eq_bytes
  Runs-run_curl url dir log = (
    log,
    Runs-bind os r _ _ log _ tt [] _ _ _ (Runs-command_output os r (bytes "curl") _ log)
        (Runs-write_file os r _ _ _),
  )

  abbrev oha_file : Bool → Bytes
  oha_file keepalive =
      if keepalive then bytes "oha-keepalive.json" else bytes "oha-no-keepalive.json"

  Runs-run_oha :
      (url dir : Bytes) (keepalive : Bool) (log : List Op)
      → (c : List Op) × Runs
          (run_oha os url dir keepalive)
          log
          tt
          ((push dir (oha_file keepalive), oha_text os url keepalive c) ∷ [])
          ((c, oha url keepalive) ∷ [])
  unfolding run_oha eq_bytes
  Runs-run_oha url dir keepalive log = (
    log,
    Runs-bind os r _ _ log _ tt [] _ _ _ (Runs-command_output os r (bytes "oha") _ log)
        (Runs-write_file os r _ _ _),
  )

  pub Runs-measure :
      (url dir : Bytes) (log : List Op)
      → (c o k : List Op) × Runs
          (measure os url dir)
          log
          tt
          (measured url dir c o k)
          (asks url c o k)
  unfolding measure
  Runs-measure url dir log =
      let (c, by_curl) = Runs-run_curl url dir (perform os (sleep 2) log).1 in
      let (o, by_oha) = Runs-run_oha url dir false _ in
      let (k, keepalive) = Runs-run_oha url dir true _ in
      (
        c,
        o,
        k,
        Runs-bind os r _ _ log tt tt [] _ [] _ (Runs-perform os r (sleep 2) log) (
            Runs-bind os r _ _ _ tt tt _ _ _ _ by_curl (
              Runs-bind os r _ _ _ tt tt [] _ [] _ (Runs-perform os r (sleep 1) _) (
                Runs-bind os r _ _ _ tt tt _ _ _ _ by_oha (
                  Runs-bind os r _ _ _ tt tt [] _ [] _ (Runs-perform os r (sleep 1) _)
                    keepalive)))),
      )
