-- ===== src/Runner/Success/Main.antt =====
-- src/main.rs: what `main` leaves behind where nothing fails.
use benchmark_reverse_proxie.Common.{◌≡◌, List, [], ◌∷◌, ◌++◌}
use benchmark_reverse_proxie.Common.Bytes.{Bytes}
use benchmark_reverse_proxie.Runner.System.{Op, Os, M}
use benchmark_reverse_proxie.Runner.Servers.{Server}
use benchmark_reverse_proxie.Runner.Processes.{running}
use benchmark_reverse_proxie.Runner.Success.{File, Ask, Runs}
use benchmark_reverse_proxie.Runner.Success.Alone.{Alone, Before}
use benchmark_reverse_proxie.Runner.Success.Files.{origin_files, proxy_files}

-- The files of the servers, one after the other.
abbrev pub Each : (Server → List File → Type 0) → List Server → List File → Type 0
Each P [] files = files ≡ []
Each P (server ∷ later) files =
    (here rest : List File) × (files ≡ here ++ rest) × P server here × Each P later rest

module _ (os : Os) where
  -- What the tools printed while only this server ran, and an empty `origin.txt`.
  abbrev pub OriginResults : Server → List File → Type 0
  OriginResults origin files =
      (c o k : List Op) × (files ≡ origin_files os origin c o k)
      × Alone os origin (running os c)
      × Alone os origin (running os o)
      × Alone os origin (running os k)

  -- What the tools printed while only the proxy and the origin server ran, and two empty files.
  abbrev pub ProxyResults : Server → Server → List File → Type 0
  ProxyResults origin proxy files =
      (c o k : List Op) × (files ≡ proxy_files os proxy c o k)
      × Before os proxy origin (running os c)
      × Before os proxy origin (running os o)
      × Before os proxy origin (running os k)

  -- From no process to none, with these files.
  record Leaves (m : M Unit) (log : List Op) (P : List File → Type 0) : Type 0 where
    files : List File
    asks_for : List Ask
    run : Runs m log tt files asks_for
    quiet : running os (m log).1 ≡ []
    good : P files
