-- ===== src/Lib.antt =====
-- The servers, the proxies and the runner of benchmark-reverse-proxies.
--
-- The repository compares HTTP servers. A runner (src/main.rs) sets the CPU, starts one origin
-- server, or a proxy and an origin server, measures it with curl and oha, stops it, and writes the
-- results. The servers answer every request with a short text. Some bring code of their own: a
-- thread pool and a date cache (origin-toysync), a codec and a connection loop (origin-tokio), an
-- actor (origin-heph). The others are handlers in a framework, and so are the proxies, which
-- rewrite headers.
--
-- Common          numbers, lists, bytes, UTF-8, decimals, and the state monad Exec with panics
-- Http            a reader and a printer of HTTP/1.1 responses: the client's view, on its own;
--                 the answer to HEAD and to CONNECT is read without a body
-- Toysync/Date        origin-toysync/src/date.rs: `fmt`, `update`, `buffer`, `write_str`
-- Toysync/Pool        origin-toysync/src/main.rs: `ThreadPool::new`, `execute`, the loop of `Worker::new`
-- Toysync/Connection  origin-toysync/src/main.rs: `handle_connection`
-- Toysync/Server      origin-toysync/src/main.rs: `main`, the pool with a date cache for each thread
-- Tokio/Date          origin-tokio/src/main.rs: the module `date`, a copy of origin-toysync/src/date.rs
-- Tokio/Encode        origin-tokio/src/main.rs: `Encoder::encode`
-- Tokio/Threads       origin-tokio/src/main.rs: `date::LAST`, a cache for each thread that encodes
-- Tokio/Decode        origin-tokio/src/main.rs: `Decoder::decode`
-- Tokio/Process       origin-tokio/src/main.rs: `process` and `respond`, one connection from end to end
-- Accept              origin-tokio, origin-hyper, proxy-hyper (src/main.rs of each): `main`, the accept loop
-- Startup             the other servers and proxies (src/main.rs of each): `main`, the calls before it serves
-- Origins/Handlers    origin-actix, origin-ntex, origin-hyper (src/main.rs of each): the handlers
-- Origins/Pingora     origin-pingora/src/main.rs: `to_date_string`, `process_new`
-- Heph                origin-heph/src/main.rs: `http_actor` and the decisions of the supervisors
-- Proxies/Actix       proxy-actix/src/main.rs: `HOP_HEADERS`, `forward`
-- Proxies/Hyper       proxy-hyper/src/main.rs: `hello`
-- Proxies/Pingora     proxy-pingora/src/main.rs: `upstream_peer`, `response_filter`
-- Origins/Alike, Proxies/Agree   servers side by side, and the three proxies side by side
-- Http/Headers        the interface of the header maps that the origin servers and the proxies use
-- Runner/Servers      src/main.rs: `Server` with `name`, `spawn`, `kill`
-- Runner/Bench        src/main.rs: the benchmarks and `main`; build.rs
-- Chain               proxy-actix before origin-tokio, from the client's request to the client's answer
-- Runner/Failure, Powersave, Success   what `main` asks of the system, by the outcome of the operations
-- Runner/Processes    which processes run at each of these
-- Runner/Monitor      a state that is read off the log, and what is allowed in it
-- Runner/System       the operations of the system that the runner asks for
--
-- State is passed explicitly. A panic is a value. The date cache is a record that `fmt` takes and
-- gives back; the clock is an argument. The pool is a record of workers, lock and channel; a
-- thread's turn is one blocking point of its loop (`lock`, `recv`, `job()`), and any interleaving
-- of turns, of sending and of dropping the pool is a run. With its last thread the pool loses the
-- receiver and the jobs that wait. A thread whose client sends nothing stays in its job: its turn
-- does not come. The decoder keeps the pointers of the slices that httparse gives, and the
-- wrap-around of their difference. The actor is run against a list of what the connection does. The
-- runner's requests to the system are a log, and the system's answers depend on the log; one who
-- waits for a process that does not end waits for ever.
--
-- The loop over a connection of origin-tokio takes a list of ticks, one for each round, and runs
-- out of them only if there are no more of them than the client sends bytes. The other loops follow
-- a list (events, accepted connections, servers, header fields). The reader of Http takes the
-- length of the text as its fuel, since each line takes two bytes or more.
--
-- The crates are parameters with their contract as hypotheses: httpdate (what it renders, and up to
-- which second), the maps of headers, `streaming` of actix and the clients of awc and hyper,
-- httparse and http (what is parsed, and that slices lie in the buffer), Framed of tokio_util (the
-- decoder gets what has come, in any portions, and answers are written in order), chrono, heph_http
-- (the headers and the events of a connection).
--
-- Not modelled: what the frameworks do with the service that `main` gives them, beyond the handlers
-- (so also what the closures of origin-heph and proxy-actix do on each worker); the servers in C;
-- the nginx configurations and the shell scripts; the log lines that go to the terminal.
pub mod Common
pub mod Http
pub mod Toysync
pub mod Tokio
pub mod Heph
pub mod Origins
pub mod Accept
pub mod Startup
pub mod Proxies
pub mod Chain
pub mod Runner
