-- ===== src/Lib.antt =====
-- The Rust library of the HAI SDK (rust/haiai): the parts that decide what an agent trusts, sends and
-- reads, as functions, with the theorems that make them correct.
--
-- Files, and the code that they are about:
--   Prelude    lists, Boolean tests and bounded arithmetic; no code of the repository.
--   Text       `str`, `String` and UTF-8, as the sources use them: a text is the list of its code points.
--   Error      rust/haiai/src/error.rs: `HaiError`, `Result` and the operator `?` as `>>=` and `>>`.
--   Json       `serde_json::Value` with the accessors that the sources call.
--   Client     rust/haiai/src/client.rs: Sse is `SseParser`; Retry is `request_with_retry`; Reconnect is
--              `on_benchmark_job_with_reconnect`; Keys is `parse_server_public_keys`; Origin is
--              `same_origin_redirect_policy` and `validate_live_event_key_origin`; Live is
--              `verify_live_transport_event`; Feed and Streams are the tasks that `connect_sse` and
--              `connect_ws` spawn; Setup is `HaiClient::new` and the `with_` methods; Body is
--              `read_response_body_limited`; Auth is rust/haiai/src/request_auth.rs.
--   Email      rust/haiai/src/validation.rs (Validation), rust/haiai/src/mime.rs (Mime) and
--              rust/haiai/src/email_inline.rs (Inline) for an email that is sent, and `verify_email` of
--              rust/haiai/src/email.rs (Verify) for one that is read, with the types of
--              rust/haiai/src/types.rs.
--   Remote     rust/haiai/src/jacs_remote.rs: responses, record keys, and the cursor walks (Pages).
--   Config     rust/haiai/src/config.rs: the configuration file, and the settings that are resolved.
--   Documents  rust/haiai/src/jacs.rs: `save_document` and `get_typed_latest_document` (Editing).
--   Links      rust/haiai/src/verify.rs and rust/haiai/src/key_format.rs.
--   A2a        rust/haiai/src/a2a.rs: trust in agent cards, artifacts (Artifacts), mediated jobs (Jobs),
--              cards (Cards) and what is published of them (Published).
--   Tests      the theorems at concrete inputs, and runs of the definitions.
--
-- How the parts interact: a live task holds the trusted keys of Keys and the replay state of Live in a
-- Feed. Each round of its `tokio::select!` is an input of Streams: bytes go through the parser of Sse,
-- each raw event through Live, and what comes out goes into the channel; a timer replaces the keys. The
-- order of inputs is the environment's, so the theorems hold for every interleaving. A listener of
-- Reconnect reads such channels. Validation stands in front of Mime when an email is sent; Inline makes
-- its HTML part.
--
-- Verify reads back what a sender's registry has published: the PEM text that Links makes of a key. A
-- document is saved through the interface Provider of Documents/Editing, of which no law is assumed.
--
-- State is passed explicitly, and code that fails returns `Result`. What is not code of the repository is
-- a parameter: the `jacs` crate (with the state of its replay stores), the URL parser, base64, the HTML
-- tokenizer, percent encoding, HTTP and DNS answers, files and the environment, the date and the random
-- identifiers. The requests of the client that A2a makes are parameters, too.
--
-- Fuel: `take_lines` of Sse has the length of the buffer, and each line that it takes shortens the
-- buffer; a cursor walk has a number of pages, and returns `none` if the server has more. `chunks` of
-- Mime and `chunk_lines` of Links have the length of the bytes, `drop_scheme` of A2a that of the text. All
-- other functions recurse on their data.
--
-- Integers: `usize` and `u64` arithmetic is that of 64-bit targets, with `checked_add`, `saturating_add`
-- and the wrap-around of shifts written out.
--
-- Not modelled: the set-up of connections and the HTTP calls themselves, logging, signing and local
-- storage (calls of the `jacs` crate), the command line, the MCP server, the foreign function bindings
-- and the SDKs in other languages.
pub mod Prelude
pub mod Text
pub mod Error
pub mod Json
pub mod Client
pub mod Email
pub mod Remote
pub mod Config
pub mod Documents
pub mod Links
pub mod A2a
pub mod Tests
