-- ===== src/Lib.antt =====
-- vel: a server for dashboards that are put together from apps. A request passes a chain of
-- middleware (internal/server/authmiddleware.go) that finds out who sent it, from a session cookie
-- or from one of the providers, and keeps it from any path that needs a login. Behind the chain
-- stand the handlers, which read panels, data sources and users. This library models the parts that
-- carry state or decide about access, and what they rest on.
--
-- Files, and the code that they are about:
--   Common    texts as lists of bytes, lists, options and Boolean tests that the parts share
--   Std       Go's standard library as it is used: hex, the escapes and the queries of net/url,
--             sort, maps by name, and HMAC and SHA-256 as parameters
--   Store     a bbolt bucket and a JSON codec, as records of operations with their documented laws
--   Limiter   the sliding window of internal/auth/magiclink.go and internal/server/server.go
--   Auth      internal/auth
--     Types        types.go: Identity, Session, IsExpired
--     Scopes       scopes.go: CheckScope
--     Tokens       auth.go: scoped tokens, from InitScopedTokens to CheckScopedToken
--     Cookie       auth.go: SignCookie, VerifyCookie
--     Telegram     auth.go: ValidateInitData, ValidateTelegramLogin, and the numbers of accounts
--                  in decimal
--     Legacy       auth.go: Check and the settings it reads; the handshake of
--                  internal/server/websocket.go
--     Sessions     session_store.go: the methods of BoltSessionStore
--     MagicLinks   magiclink.go: the methods of MagicLinkStore
--     Users        users.go: the methods of UserStore
--     Request      the parts of a request that are read, with the identity of its context
--     Providers    provider_apikey.go, provider_magiclink.go, provider_telegram.go and the
--                  interface of types.go
--     Manager      manager.go: AuthManager
--   Debug     internal/debug/buffer.go: RingBuffer
--   Server    internal/server
--     Paths        isPublicPath and isBrowserRequest of authmiddleware.go, the loop of server.go
--                  over the public routes, and PublicRoutes of internal/apps/apps.go
--     Middleware   the middlewares of authmiddleware.go and their chain in server.go
--     Limits       rateLimiter of server.go
--     Handlers     the handlers of server.go: what a request reads and what a response is
--       Admin        /api/auth/users and /api/auth/keys
--       Login        /auth/telegram/callback, /auth/token and /auth/dev
--       Tokens       /api/tokens, checkAuth and writeScopedTokensToConfig
--       Crons        /api/crons/action and isValidJobID
--       Magic        /auth/magic and /auth/logout
--       Links        /api/auth/magic-link and its /request
--   Apps      internal/apps/apps.go: Discover, discoverFromDir, validateDependencies
--   Build     internal/build: the policy of imports and scanAppImports of build.go
--     Discovery    discoverApps and generateAppImports
--   Sources   internal/datasource/datasource.go
--   Panels    internal/panels: validateManifestSchema and BuildPanelList of registry.go
--     Discovery    loadManifest and the loop of DiscoverPanels
--   Cap       internal/cap/cap.go
--   Security  SafeRelPath of pkg/vel/security.go
--   ErrorLog  pkg/vel/errorlog.go
-- A component's own file holds its state and its operations, under the names of the Go functions
-- in snake case. Its children hold the lemmas and the theorems, and Tests the runs at concrete
-- inputs.
--
-- How the code is modelled. A method that holds a lock, or that runs in one transaction, is one
-- step: a function from the state to its result and the next state. Where Validate of the magic
-- links and Get of the sessions use two transactions, both are functions of their own; for Validate
-- another call can come between them. Each reading of the clock, each read of random bytes, each outcome of a write and
-- each answer of the file system is an argument, one for each place of the code that asks for it. An
-- error is a value with a constructor for each message that the code tells apart.
--
-- Bounds. A text is its bytes. An instant counts nanoseconds from Go's zero time and does not wrap;
-- nor do counters, which are bounded by what fits into memory. Loops are recursions on the list or
-- on the counter that the code runs over: the three attempts of a data source and the walk over the
-- ring buffer count down from the number that the code counts up to. Only the decimal digits of a
-- number have fuel, the number and one, which is enough since every step divides by ten.
--
-- What is a parameter. HMAC-SHA256 and SHA-256 are functions of which nothing is assumed but that
-- they give bytes: theorems about secrecy are not stated. A bucket has the laws of a map, and
-- ForEach visits its pairs. JSON of a struct decodes to that struct; the JSON of a Telegram user is
-- any function from texts, and one that decodes what it encodes where the code writes it. Validity of
-- JSON for the data sources is a test of texts. `strings.ToLower` is written out for ASCII, and for any
-- other text it is a function of which nothing is assumed.
--
-- A handler is a function from a request, its decoded body and the state it may change to a
-- response and the next state. The location of a response is what `http.Redirect` is given, and the
-- text of an error page or of an error of a store is left out. Where a handler of the tokens panics,
-- it has no response, and the state is as the panic left it. A map that the code iterates over in
-- any order is a list of pairs, in any order where a theorem does not fix it.
--
-- What is not modelled: the other handlers of internal/server/server.go, which serve panels, files
-- and proxied routes; the connection of the WebSocket; the choice of the panel directories; what the
-- build tool copies and compiles; the verify tool; the collection of system data; the hooks; the
-- interface for agents; and the debug endpoints. They are mostly calls of the file system, the network
-- and shell commands. Goroutines appear as the steps that they make, and what is only logged is left
-- out.
pub mod Common
pub mod Std
pub mod Store
pub mod Limiter
pub mod Auth
pub mod Debug
pub mod Server
pub mod Sources
pub mod Panels
pub mod Security
pub mod Apps
pub mod Build
pub mod Cap
pub mod ErrorLog
