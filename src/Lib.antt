-- ===== src/Lib.antt =====
-- The rails: a Bitcoin Core backend (bitcoin_core_backend) and a Lightning backend
-- (lightning_flask), two Flask services in Python that move money on behalf of clients which may
-- send a request twice. Each keeps its idempotency keys in SQLite, in a class CohesionStore: a
-- worker claims the key of a request under a lease and a fresh token, settles it with a response or
-- a failure, and a repeated request is answered from the row. The Bitcoin store also keeps the
-- exact signed transaction before its first broadcast.
--
-- Files. Prelude, Text, Json and Effect are the shared helpers: numbers, Boolean tests, equality as
-- an instance, Python's `int` as ℤ, text slices, JSON documents, results and actions with ROLLBACK.
-- Text.Digits writes and reads decimal numbers, Text.Integer is Python's `int` of a text, and
-- Effect.Triple has the rules by which the handlers are proved: what holds before an action, after it
-- has returned, and after it has raised.
-- Table is the part of SQL that the stores use, over a table as the list of its rows in the order
-- of insertion; Table.Laws follows the row of a key through every statement.
--
-- Bitcoin.Errors is bitcoin_core_backend/src/core/errors.py. Bitcoin.Store is CohesionStore of
-- bitcoin_core_backend/src/infra/store.py, one action Db → Result × Db for each method: Rows has
-- the tables and the dataclasses, Claim the methods `get_replay`, `claim_idempotent`,
-- `heartbeat_claim`, `idempotency_state` and `prune_expired`, Prepared `save_prepared_broadcast`
-- and `load_prepared_broadcast`, Settle `store_response`, `mark_broadcast`, `mark_failed`,
-- `mark_prepared_failed` and `mark_unknown`, Transactions `record_transaction`,
-- `recent_transactions` and `summary`. Calls has every method that changes the database as a call;
-- since each is one transaction (BEGIN IMMEDIATE, or a single statement), every interleaving of
-- workers, those that crash included, is a sequence of calls, each with the time that its worker
-- read. Machine is the specification: what a call may do to the row of a key, without tables or row
-- counts. Owner, Claiming and Saving say what each method does in terms of the row that its key
-- finds, Keys and Machine.Refines what each call does to every key, and the other files draw
-- conclusions for whole histories.
--
-- Lightning.Errors is ApiError of lightning_flask/src/core/security.py. Lightning.Store is
-- CohesionStore of lightning_flask/src/infra/cohesion.py in the same way: Rows has the tables,
-- Claim `claim_idempotent`, Settle what the owner of a claim does, Events the queries and the event
-- log, Calls the methods that change the database as calls, and counts the calls that take a key to
-- SUBMITTED, which the payment handler makes right before it hands the payment to LND. Machine is
-- the specification, Owner what the owned UPDATE and the claim do, and Once, Settled, Fencing and
-- Lease draw the conclusions. Its rows do not expire. Lightning.Strip is `_sanitize` and `_strip_keys`,
-- over a function that stands for `str.lower`.
--
-- Window is the sliding window of both in-memory rate limiters: Bitcoin.RateLimit is
-- FixedWindowLimiter of bitcoin_core_backend/src/api/app.py, Lightning.RateLimit is RateLimiter of
-- lightning_flask/src/core/security.py, and Window.Bound bounds what they let through. FixedWindowLimiter
-- holds a lock; RateLimiter does not, and is modelled for requests that are checked one after the other, not
-- for threads that check at once.
-- Bitcoin.Validation is the amounts and `normalize_outputs` of
-- bitcoin_core_backend/src/core/validation.py, on JSON documents; Bitcoin.Validation.Outputs says
-- what a request asks for, and Bitcoin.Validation.Text is the validators of texts.
--
-- Bitcoin.Validation.Sats is the way of an amount to BTC and back.
--
-- Bitcoin.Rpc is bitcoin_core_backend/src/infra/rpc.py, and Bitcoin.Service is
-- bitcoin_core_backend/src/services/bitcoin_service.py: World has what a request works on, that is
-- Bitcoin Core behind a parameter, the store, and what other workers call on it before each of the
-- request's own transactions; Funding is `_fund_psbt`, `_funding_options` and `create_psbt`, Unlock
-- the release of inputs, Submit and Broadcast `create_sign_and_send`, Wallets and Status the rest.
-- Sent, Saving, Preparing, Submitting and Persisted follow a broadcast step by step; Only, Opening
-- and Resending say which calls of Bitcoin Core a request makes. Bitcoin.Config is AppConfig.
--
-- Lightning.Security is the rest of lightning_flask/src/core/security.py: Invoice and Bolt11 the
-- pattern and the prefix of an invoice, Auth the tokens. Lightning.Host has what a request works on,
-- Lightning.Lnd is lightning_flask/src/infra/lnd.py, and Lightning.Api, Lightning.Payments and
-- Lightning.Invoices are the handlers of lightning_flask/src/api/app.py: Api what they share and the
-- error handlers, Payments `pay_invoice`, whose checks are in Payments.Checks. Payments.Bounded has
-- the invariant of a payment: what was paid under a key, and what its row still lets be paid.
-- Payments.Asking, Payments.Steps and Payments.Requests keep it through LND's client, the steps of the
-- handler and whole requests, Payments.Quoting has what LND answered of the invoice, and Payments.Once and
-- Payments.Limits draw the conclusions. Payments.Accepting, Settling,
-- Claiming and Accepted follow the claim from the other end: what stands in the store on a return. Lightning.Config
-- is Settings.
--
-- Bitcoin.Post is `_json_post` of bitcoin_core_backend/src/api/app.py, the idempotent POST, around
-- a handler that is an argument, and Bitcoin.Post.Twice is what a client sees that sends it twice.
--
-- Conventions. Times are ℕ, in seconds; the clock's value and the text of a fresh uuid4 are
-- arguments. A text is a native String, a JSON column the document that it encodes (its encoding,
-- and the order in which `sort_keys` puts the keys, are not modelled), a column of states an
-- enumeration, a column that may be NULL an Option. AUTOINCREMENT is the counter `last_id`. SQLite
-- gives a transaction or nothing, and PRIMARY KEY is the hypothesis that the keys are distinct,
-- which every call keeps. The time of a rate limiter is a number of ticks of any length. The number
-- of a text of more than 4300 digits is a crash, as Python's `int` has it. `str` of a document that is
-- no text, `lower` and `upper`, base64, the `int` of a float and the quoting of a URL are parameters,
-- and so are the answers of Bitcoin Core and LND. Digits that are not ASCII, and exponents of an
-- amount beyond a million, are left out. A code of a JSON-RPC error that is a float, which Python would
-- find equal to a whole number, is read as no code. `lookup_payment` searches 20 pages at most, which is a
-- recursion on the rounds that are left; no other definition runs on fuel.
--
-- Not modelled: Flask's routing and headers, the HTTP of `requests` and `urllib`, the environment and
-- the validation of the settings, the API keys of the Bitcoin backend, LND's `node_status` and its
-- cache, `decode_bolt11_expired`, the limiters that use Redis, the files' permissions and the
-- migrations of old databases.
pub mod Prelude
pub mod Text
pub mod Json
pub mod Effect
pub mod Table
pub mod Window
pub mod Bitcoin
pub mod Lightning
