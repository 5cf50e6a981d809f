-- ===== src/Http/Headers/Sample.antt =====
-- A map of headers, for tests: a function from names to values.
use benchmark_reverse_proxie.Common.{refl, List, [], ◌∷◌, if◌then◌else◌}
use benchmark_reverse_proxie.Common.Bytes.{Bytes}
use benchmark_reverse_proxie.Http.{eq_bytes}
use benchmark_reverse_proxie.Http.Headers.{HeadersApi, IsHeaders}

abbrev pub api : HeadersApi
api = record {
  Headers = Bytes → List Bytes;
  empty = λ name. [];
  insert = λ h k v name. if eq_bytes name k then v ∷ [] else h name;
  values = λ h name. h name;
}

pub api-IsHeaders : IsHeaders api
api-IsHeaders = record { values-empty = λ name. refl; values-insert = λ h k v name. refl }
