-- ===== src/Runner/Servers.antt =====
-- `Server` of src/main.rs.
use benchmark_reverse_proxie.Common.{[], ◌∷◌, ◌++◌, Option, none, some, if◌then◌else◌}
use benchmark_reverse_proxie.Common.Bytes.{Bytes, bytes}
use benchmark_reverse_proxie.Common.Bytes.Utf8.{is_utf8}
use benchmark_reverse_proxie.Runner.System.{
  Os, M, ◌>>=◌, ◌>>◌, pure, unwrap_some, Child, perform, command_output, command_spawn, push,
  as_i32, current_dir, kill_child, send_sigterm,
}

pub data Server : Type 0 where
  rust nginx multi_process zig : Bytes → Server

unfoldable pub name : Server → Bytes
name (rust n) = n
name (nginx config_dir) = config_dir
name (multi_process n) = n
name (zig n) = n

abbrev pub release_path : Bytes → Bytes
release_path n = push (push n (bytes "target/release")) n

-- `OsString::into_string`
abbrev pub into_string : Bytes → Option Bytes
into_string path = if is_utf8 path then some path else none

module _ (os : Os) where
  -- A path of ASCII bytes goes through `to_string_lossy` as it is.
  unfoldable pub spawn_server : Server → M Child
  spawn_server (rust n) = command_spawn os none (release_path n) []
  spawn_server (nginx config_dir) = do
    perform os current_dir
    path ← unwrap_some (into_string (push (push os.cwd config_dir) (bytes "nginx.conf")))
    command_spawn os none (bytes "/usr/sbin/nginx")
        (bytes "-c" ∷ path ∷ bytes "-g" ∷ bytes "daemon off;" ∷ [])
  spawn_server (multi_process n) = command_spawn os none (release_path n) []
  spawn_server (zig n) =
      command_spawn os none (bytes "sh")
        (bytes "-c" ∷ (push (push n (bytes "zig-out/bin")) n ++ bytes " >/dev/null 2>&1") ∷ [])

  unfoldable pub kill_server : Server → Child → M Unit
  kill_server (rust n) proc = perform os (kill_child proc.pid)
  kill_server (nginx config_dir) proc = perform os (send_sigterm (as_i32 proc.pid))
  kill_server (multi_process n) proc = do
    command_output os (bytes "sh")
        (bytes "-c" ∷ (bytes "pgrep -f " ++ (n ++ bytes " | xargs -r kill")) ∷ [])
    pure tt
  kill_server (zig n) proc = perform os (kill_child proc.pid)
