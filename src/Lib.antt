-- ===== src/Lib.antt =====
-- A verification library for trae-api, a gateway that serves the OpenAI chat API from the Trae IDE
-- upstream (package main, Go).
--
-- The program. A client's request passes the middleware (http.go), is decoded and checked (types.go),
-- takes a slot, and is carried out with the credential that the API reads from a file (main.go,
-- credential_store.go): the account's models and their routes are discovered and cached (models.go), a
-- request is built for the route and sent, and the upstream's stream of server-sent events is read,
-- checked and passed on as deltas (upstream.go), which a stream sink writes to the client (http.go).
-- Auth, the other service, takes a login through the browser, keeps the credential on the disk and
-- refreshes it (auth.go, auth_service.go, credential_store.go); a command logs in through it
-- (login_cli.go).
--
-- The files.
--   Prelude      shared names, lists over the native numbers, texts, Go maps, Go ints.
--   Fault        the errors that the program tells apart, Result, and statusForError (main.go).
--   Json         JSON values as encoding/json decodes them, and the readers of models.go.
--   Chat         the data types of types.go; Chat/Content normalizeMessage and textContent,
--                Chat/Validate choiceName and validateRequest, Chat/History validateToolHistory,
--                Chat/Pairing its proofs, Chat/Decode decodeChatRequest, Chat/Decode/Total its proof.
--   Route        modelRoute and buildRoutedIDEBody; Route/Limits its token limits.
--   Models       modelConfigs, available and detail; Models/Routes the routes, Models/Cache the
--                cache, Models/Discovery modelJSON, modelNamesAttempt, modelNames and resolveRoute;
--                Models/Served, Models/Capacity, Models/Listed and Models/Held their proofs.
--   Upstream     ideAccumulator and its errors; Upstream/Snapshot mergeSnapshot, Upstream/Event
--                normalizeEvent and parseUsage, Upstream/Calls and Upstream/Extract addCall and
--                extractCalls, Upstream/Frame frame, Upstream/Stream readIDEStream. The proofs: Rules
--                (what each step of the reader has to keep), View, Texts and CallState (what a
--                client makes of the deltas), Invariant, Slots, Updates and Kept (the invariant of
--                the accumulator), Closing and Results.
--   Login        the login attempts of authManager: beginLogin, the locked parts of callback,
--                finishLogin, loginStatus, cancelLogin and logout, on the state of Login/State, with the
--                proofs Settled, Winner and Capacity; Login/Link the authorization link, with the
--                proof Link/Query; Login/Callback callback from its query to its page, with the
--                proofs Account, Published, Awaited, Completes, Delivered and Spent;
--                Login/DeviceId newDeviceID.
--   Refresh      get, reconcilePublished and sameCredential (auth.go); Refresh/System the goroutines
--                that call get, Refresh/Exchange decodeExchange, Refresh/Exchange/Request exchange,
--                boundExchange and legacyExchange. The proofs: Entry, OneUse, Resend and Renewed, and
--                Exchange/Accepted, Exchange/Request/Outcomes and Exchange/Request/Once.
--   Store        the credential directory (credential_store.go): Store/Codec the stored credential,
--                Store/Read Load and readAPICredential, Store/Save Save and QuarantineRejected,
--                Store/Owner openCredentialStore and Close. The proofs: Atomic, RoundTrip, Rejected,
--                Exclusive and Served.
--   AuthService  newAuthService, startLogin and refreshIfNeeded; AuthService/Routes the test of its
--                routes, with Routes/Admitted its proof; AuthService/Handlers attemptRequest with
--                loginStatus and cancelLogin, AuthService/Running listen, Run and shutdown, with
--                Running/Closed its proof; AuthService/Fenced joins the store and the refresh.
--   Checker      the syntax that tools/checker looks at, and underlying; Checker/Layout checkDefinition
--                and checkLiteral, Checker/Order the order of the findings, Checker/Inspect the rest of
--                the checker. The proofs: Resolved, Layout/Lines, Inspect/Groups and Inspect/Passed.
--   Server       acquireGate and execute (main.go), promptAttempt and prompt (upstream.go);
--                Server/Io what a request meets outside the program, Server/Config the
--                configuration and its check, Server/Lifecycle waitForHTTP and runCombined
--                (coordinator.go), Server/Gateway newServer, listenAPI, shutdown and runCurrent;
--                Server/Sent and Server/Answered the proofs.
--   Command      newCommand and commandConfig (command.go); Command/Exposed joins the commands, the
--                configuration and the gateway.
--   Http         authMiddleware and writeError (http.go); Http/Body decodeBody, Http/Sink streamSink
--                with writeExecutionError and the streaming part of chat, Http/Usage estimateTokens
--                and chatUsage, Http/Chat the rest of chat, Http/ModelList models, Http/Errors the
--                members of an error and debugHeaders. The proofs: Guarded, Sink/Wire, Sink/Silent
--                and Chat/Completed.
--   LoginCommand runLogin and loginCall (login_cli.go); LoginCommand/Polling its loop.
--   Tests        concrete requests, streams and states to which the theorems are applied.
--
-- How the state corresponds. A Go struct is a record with the fields in snake case, a map is an
-- association list, a pointer that may be nil an Option. An operation on a mutex-guarded struct
-- takes the state and returns it; a function that lets go of the mutex in between is one operation
-- for each locked part, so that every interleaving is a list of events (Login.run, Refresh.System.run,
-- Http.Sink.run). A listing of models keeps the cache as it was when it let go of the mutex to ask the
-- upstream: what other goroutines do to the cache meanwhile is not modelled. The reader of a stream
-- works in Step, where an error keeps the accumulator with the deltas that were sent before it.
--
-- Arguments of the model. encoding/json, strconv, strings, time, net, net/url, unicode, openai-go and
-- the cryptography are records of functions (Codec, Texts, Net, Urls, Raws, Unicode, Crypto, Encoding);
-- emit and the random ids are the record Host. The answers of net/http and of the system calls, the
-- clock and the device that a login draws are arguments of the operations; in Login the credential of
-- a callback is one too, and Login/Callback computes it. go/ast, go/parser and go/types give the
-- syntax and the types that Checker takes. sort.Strings is an argument that keeps what holds of every
-- element.
--
-- Bounds. No definition needs fuel of its own: every loop of the source runs over a list, that of the
-- login command over the list of what its turns find, but for the loop of underlying, which the source
-- itself ends after ten rounds. The program's own limits are in the model: 128 tool
-- calls of a stream, 4 MiB of arguments, 16 MiB of text, indexes up to 10000, 8 entries of the model
-- cache for 5 minutes, 128 results of login attempts, 1 MiB of a credential file. Numbers that the
-- source keeps in an int are natural numbers, since they are counts below 2^63; the limits of a
-- request are signed. Times are natural numbers, none of which is before the zero Time. Go goes through
-- a map in any order; here the order is that of the list.
--
-- Not modelled: the ticker of refreshLoop and the answer of /healthz (auth_service.go), which are calls
-- of time and net/http; the encoding of answers (http.go), which are values of the OpenAI SDK; the
-- parsing of the command line and the HTTP servers (main.go, command.go), which are calls of the cli
-- package and net/http; the headers of the requests to the upstream and snapshotIdentity (models.go),
-- which are constants and digests; and what is printed and logged.
pub mod AuthService
pub mod Chat
pub mod Checker
pub mod Command
pub mod Fault
pub mod Http
pub mod Json
pub mod Login
pub mod LoginCommand
pub mod Models
pub mod Prelude
pub mod Refresh
pub mod Route
pub mod Server
pub mod Store
pub mod Tests
pub mod Upstream
