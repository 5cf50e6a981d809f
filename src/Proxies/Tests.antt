-- ===== src/Proxies/Tests.antt =====
-- An answer that sets two cookies, through either proxy.
use benchmark_reverse_proxie.Common.{
  ◌≡◌, ◌≤◌, ◌↔◌, refl, true, false, List, [], ◌∷◌, none, some, length, Option, arith,
}
use benchmark_reverse_proxie.Common.Bytes.{Bytes, bytes}
use benchmark_reverse_proxie.Http.{Field, eq_bytes, lower}
use benchmark_reverse_proxie.Http.Headers.{values_of, latest}
use benchmark_reverse_proxie.Proxies.Actix.{
  is_hop, hop_headers, answer, Upstream, Incoming, Outgoing, Answer, response,
  internal_server_error, copy_headers, forwarded_req, forward,
}
use benchmark_reverse_proxie.Proxies.Actix
use benchmark_reverse_proxie.Proxies.Actix.Relay.{
  relayed, typed, forward-relayed, copy_headers-keeps_iff,
}
use benchmark_reverse_proxie.Proxies.Hyper
use benchmark_reverse_proxie.Proxies.Hyper.{Request, Response, ok, hello}
use benchmark_reverse_proxie.Http.Headers.Sample.{api, api-IsHeaders}
use benchmark_reverse_proxie.Proxies.Pingora.{response_filter}
use benchmark_reverse_proxie.Proxies.Agree.{renamed, Returned, proxies-Agree}

abbrev fields : List Field
fields =
    (bytes "connection", bytes "close")
    ∷ (bytes "set-cookie", bytes "a=1")
    ∷ (bytes "set-cookie", bytes "b=2")
    ∷ []

abbrev res : Upstream
res = record { status = 200; headers = fields; body = bytes "hi" }

abbrev awc : Actix.Crates api
awc = record {
  Url = Bytes;
  set_path = λ url path. path;
  set_query = λ url query. url;
  request_from = λ url req. record {
    url = url;
    method = req.method;
    headers = req.headers;
    decompress = true;
  };
  send_stream = λ out payload. some res;
  streaming = λ h name. typed name (h name);
}

abbrev incoming : Incoming api
incoming = record { path = bytes "/a"; query = none; method = bytes "GET"; headers = λ name. [] }

-- Of two cookies only the second is left.
second_cookie : relayed fields (bytes "set-cookie") ≡ bytes "b=2" ∷ []
unfolding values_of is_hop eq_bytes latest
second_cookie = refl

forward-relayed_example :
    (headers : Bytes → List Bytes) × (forward api awc (bytes "/") incoming [] none
      ≡ response 200 headers (bytes "hi"))
    × ((name : Bytes) → headers name ≡ typed name (relayed fields name))
forward-relayed_example =
    forward-relayed api api-IsHeaders awc (bytes "/") incoming [] none res (λ h name. refl) refl

set_cookie_end : is_hop (bytes "set-cookie") ≡ false
unfolding is_hop eq_bytes
set_cookie_end = refl

copy_headers-keeps_iff_example :
    (copy_headers api (λ name. []) fields (bytes "set-cookie")
      ≡ values_of (bytes "set-cookie") fields)
    ↔ (length (values_of (bytes "set-cookie") fields) ≤ 1)
copy_headers-keeps_iff_example =
    copy_headers-keeps_iff api api-IsHeaders fields (bytes "set-cookie") set_cookie_end

abbrev asked : Request api Bytes
asked = record { method = bytes "GET"; uri = bytes "/a?b"; headers = λ name. []; body = [] }

-- The same answer, as awc and as a map of headers have it.
abbrev nginx_fields : List Field
nginx_fields = (bytes "server", bytes "nginx") ∷ (bytes "content-type", bytes "text/plain") ∷ []

abbrev nginx_res : Upstream
nginx_res = record { status = 200; headers = nginx_fields; body = bytes "hi" }

abbrev in_map : Bytes → List Bytes
in_map name = values_of name nginx_fields

abbrev to_nginx : Actix.Crates api
to_nginx = record awc { send_stream = λ out payload. some nginx_res }

abbrev hyper : Hyper.Crates api
hyper = record {
  Uri = Bytes;
  parse = λ text. some text;
  request = λ req. some (record { status = 200; headers = in_map; body = bytes "hi" });
}

abbrev insert_header : (Bytes → List Bytes) → Bytes → Bytes → Option (Bytes → List Bytes)
insert_header h name value = some (api.insert h (lower name) value)

nginx-Returned :
    Returned api api-IsHeaders to_nginx hyper insert_header
      (λ h name value f. refl)
      (bytes "/")
      incoming
      []
      none
      asked
      nginx_res
      in_map
      in_map
nginx-Returned = record {
  uri = bytes "http://localhost:3000";
  streams = λ h name. refl;
  parsed = refl;
  to_awc = refl;
  answered = refl;
  hyper_holds = λ name. refl;
  pingora_holds = λ name. refl;
}

server_end : is_hop (bytes "server") ≡ false
unfolding is_hop eq_bytes
server_end = refl

one_server : length (values_of (bytes "server") nginx_fields) ≤ 1
unfolding values_of eq_bytes
one_server = omega arith

proxies-Agree_example :
    (a b c : Bytes → List Bytes) × (forward api to_nginx (bytes "/") incoming [] none
      ≡ response 200 a (bytes "hi"))
    × (hello api hyper asked ≡ ok (record { status = 200; headers = b; body = bytes "hi" }))
    × (response_filter api insert_header in_map ≡ some c)
    × (a (bytes "server") ≡ typed (bytes "server") (in_map (bytes "server")))
    × (b (bytes "server") ≡ renamed (bytes "hyper") nginx_fields (bytes "server"))
    × (c (bytes "server") ≡ renamed (bytes "pingora") nginx_fields (bytes "server"))
proxies-Agree_example =
    proxies-Agree api api-IsHeaders to_nginx hyper insert_header (λ h name value f. refl)
      (bytes "/") incoming [] none asked nginx_res in_map in_map (bytes "server") nginx-Returned
      server_end one_server
