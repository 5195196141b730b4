-- ===== src/Lib.antt =====
-- Verification of myth, a web framework in which a server is put together from filters.
--
-- A filter reads a request and comes to an outcome: a success, an error, or a forward, which says that
-- it does not match. Combinators make filters out of filters, each of them a future that is polled
-- until it is done. This library models those parts as functions that can be run, and states what they
-- come to.
--
-- Which file is about which part of the program:
-- - Prelude, Text: what all files share; `str` as a list of code points that is cut at byte offsets,
--   with `none` for the panic of a slice.
-- - Http: a record for the crates that the program calls, whose code is no part of the repository (http,
--   hyper, bytes, percent-encoding, mime, httpdate and the errors of serde_json and serde_urlencoded),
--   with the documented behaviour that the program relies on. It is a parameter everywhere; Http/Sample
--   is a concrete one.
-- - Forward (src/forward.rs), Request (src/request.rs), Errors (src/errors.rs), Outcome
--   (src/outcome.rs), Tuple (src/generics/tuples.rs): the data that filters pass along.
-- - Future: polling. `poll` gives a result, a state to poll again, or a panic; `Completes` says what a
--   future comes to after as many polls as it takes, `drive` runs one for a number of polls. It stands
--   also for `AsyncTryFn` of src/generics/fns.rs.
-- - Filter: `FilterExecute` of src/filter/mod.rs as a record of a future's states, `execute` and `poll`.
--   Each child is one combinator of src/filter: its states, its `poll` with the transitions of the
--   source, and in its Meaning the description that it implements. Filter/Keeps carries the invariant
--   of the path index through each of them, and Filter/Halts that polling them ends.
-- - Basic (src/basic/mod.rs, src/uri.rs, src/version.rs, src/addr.rs), Method (src/method.rs), Path
--   (src/path.rs), Header (src/header.rs), Body (src/body.rs), Cache (src/cache/mod.rs): the filters that
--   an application starts from. In Body, Take is the filter that takes the body of the request, Buffer
--   what it is taken into, and Limit the limit of its declared length.
-- - Content (src/json.rs, src/form/urlencoded.rs), Query (src/query.rs): filters that deserialize, over a
--   parameter for the deserializer; Content/Multipart (src/form/multipart.rs) over one for the parser.
-- - Safety: the filters and the combinators together, with Safety/Total for the end of polling, and
--   Safety/Raises for the errors; Filter/Run and Filter/Raises carry runs and errors through the
--   combinators.
-- - Response (src/response.rs), Forward/Allow, Forward/Tried and Forward/Answer (src/forward.rs), Errors/Answer
--   (src/errors.rs): responses, and what forwards and errors turn into.
-- - Security (src/security/mod.rs), Security/Hsts (src/security/hsts.rs), Security/Origin
--   (src/security/origin.rs, src/util/mod.rs): headers for security, and checking of origins.
-- - Service (src/service.rs, `from_hyper` of src/request.rs): from a request and a filter to a response.
-- - TestRequest (src/test.rs): requests for tests, which run a filter without a service.
-- - Tls (src/tls.rs): the encrypted stream of a connection, over a parameter for the TLS library;
--   Tls/Transparent compares the calls on it with those on the stream that the handshake makes.
-- - Tests: the sample requests, tests and examples.
--
-- How the code is read: a method on `&mut self` gives the changed value back; a panic is `none`, and a
-- future that panics comes to `none`; a state of a future that is left empty while a transition is made
-- is not a state of its own where no poll can see it; an `Error` of any type is a pair of its type's
-- name and its value. A status is its number. A Vec is a list, and a header map is what its documented
-- operations give. There is no fuel in the model except that of `drive`, which is only used to show
-- that particular futures complete. Byte offsets are natural numbers, since they never exceed the
-- length of a text in memory.
-- The stream of a body is a list of what it yields, with an event `endless` for a stream that never ends
-- from there on, so that a client may keep its body back for ever; the one thing that is taken for granted
-- is that a single poll finds finitely many chunks ready. What is said to be done after a finite number of
-- polls has the condition that the body ends or fails, wherever the body is read. The `into_response` of
-- the program's own types is a function, in Response; that of an application's responder, which a service
-- and a test call, may panic.
--
-- Not modelled: binding of sockets and the accept loop (src/server.rs), and the reading of certificates
-- and keys in src/tls.rs, which are input and output of other crates; the conversions into header values
-- of src/response.rs; formatting, cloning and log messages. `Buf::copy_to_slice`, the deserializers, the
-- parser of multipart bodies and the TLS library are parameters, with what their documentation says as
-- hypotheses where a theorem relies on it.
pub mod Prelude
pub mod Text
pub mod Header
pub mod Cache
pub mod Content
pub mod Query
pub mod Http
pub mod Forward
pub mod Request
pub mod Errors
pub mod Outcome
pub mod Future
pub mod Tuple
pub mod Filter
pub mod Basic
pub mod Body
pub mod Method
pub mod Path
pub mod Safety
pub mod Response
pub mod Service
pub mod Tls
pub mod TestRequest
pub mod Security
mod Tests
