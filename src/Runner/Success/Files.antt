-- ===== src/Runner/Success/Files.antt =====
-- src/main.rs: the files that a benchmark writes where nothing fails.
use benchmark_reverse_proxie.Common.{true, false, List, [], ◌∷◌}
use benchmark_reverse_proxie.Common.Bytes.{bytes}
use benchmark_reverse_proxie.Runner.System.{Op, Os, push}
use benchmark_reverse_proxie.Runner.Servers.{Server}
use benchmark_reverse_proxie.Runner.Bench.{result_dir}
use benchmark_reverse_proxie.Runner.Success.Alone.{Alone}
use benchmark_reverse_proxie.Runner.Success.Steps.{curl_text, oha_text}
use benchmark_reverse_proxie.Runner.Success.{File}

module _ (os : Os) where
  -- What the benchmark of an origin server writes: the texts are printed after these operations.
  abbrev pub origin_files : Server → (c o k : List Op) → List File
  origin_files origin c o k =
      (push (result_dir origin) (bytes "curl.txt"), curl_text os (bytes "http://localhost:3000") c)
      ∷ (
        push (result_dir origin) (bytes "oha-no-keepalive.json"),
        oha_text os (bytes "http://localhost:3000") false o,
      )
      ∷ (
        push (result_dir origin) (bytes "oha-keepalive.json"),
        oha_text os (bytes "http://localhost:3000") true k,
      )
      ∷ (push (result_dir origin) (bytes "origin.txt"), [])
      ∷ []

  -- What the benchmark of a proxy writes.
  abbrev pub proxy_files : Server → (c o k : List Op) → List File
  proxy_files proxy c o k =
      (push (result_dir proxy) (bytes "curl.txt"), curl_text os (bytes "http://localhost:3001") c)
      ∷ (
        push (result_dir proxy) (bytes "oha-no-keepalive.json"),
        oha_text os (bytes "http://localhost:3001") false o,
      )
      ∷ (
        push (result_dir proxy) (bytes "oha-keepalive.json"),
        oha_text os (bytes "http://localhost:3001") true k,
      )
      ∷ (push (result_dir proxy) (bytes "proxy.txt"), [])
      ∷ (push (result_dir proxy) (bytes "origin.txt"), [])
      ∷ []
