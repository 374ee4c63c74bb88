-- ===== src/Lib.antt =====
-- Cosmos Pay payments service: a model of the server and the properties that make it correct.
--
-- The server takes requests that the APISIX gateway has authenticated, creates SEP-7 payment intents
-- on the Stellar network, finds out on the chain whether they are paid, and tells integrators by
-- signed webhooks. Its services share a PostgreSQL database, through Prisma, and an event bus.
--
-- Files, and the code that each is about:
--   Base         shared names: Boolean tests, lists, texts, and the monad of the services. A method
--                is a function from the world to a result or an exception with a world; a method
--                that throws keeps the writes that it made before.
--   Prisma       prisma/schema.prisma. The rows as records (Schema), a table as an interface with
--                laws (Table), a table in memory that meets them (Memory), and the client with its
--                seven tables (Client). The laws are what the documentation of Prisma and of the
--                unique constraints promises; Memory shows that they can hold together. Scoped is
--                about lookups of what a caller owns.
--   Gateway      src/common: the middleware that reads the forwarded identity (Context), and the
--                guards in their order (Guards).
--   Stellar      src/stellar and src/payment-intents/stellar-verifier.service.ts. Horizon is a
--                parameter whose calls return, answer 404, or throw. Settles says without the code
--                what it means that a payment settles an intent; Sound and Scan are about the two
--                ways to verify.
--   Config       src/config: what is loaded from the environment, its check before the start
--                (Validation), and what a start guarantees (Starts).
--   Platform     what the services are built from (configuration and clients), the world, the upsert
--                of the local consumer (Tenants, Mirror), and the bus. `Supply` holds the ids, the clock and the random
--                bytes that one request draws.
--   Intents      src/payment-intents/payment-intents.service.ts: memos, assets and networks (Memo,
--                Resolve), lookups (Store), createTx and createPay (Create), validation and the marks
--                (Settle), listing, updates and removals (Manage).
--   Observer     src/payment-intents/stellar-observer.service.ts: one cycle, its two phases over the
--                rows that a query reads, the relation between each row before and after (Moves), and
--                the flag that keeps cycles apart (Overlap).
--   Customers    src/customers/customers.service.ts, with the payment statistics of findAll (Totals).
--   Products     src/products/products.service.ts.
--   Isolation    one consumer against another: what the methods do on foreign customers and products,
--                and that a request (Requests) leaves the rows of other consumers alone. Spares says
--                what that means; Writes, Rows, Creation, Settling, Catalog, Hooks and Handlers carry
--                it through the services.
--   Webhooks     src/webhooks: the signature, the dispatcher with its retry loop and its fan-out, and
--                the endpoints of a consumer.
--   Analytics    src/analytics/analytics.service.ts: the daily series (Series), the totals and volumes
--                of the dashboard (Summary), the balances by asset (Balances), and the two logs (Logs).
--   Http         the controllers and what is around them. A call of a controller is a constructor
--                with its parameters (Payments, Hooks, Catalog, Dashboard, Calls), a route its scopes;
--                Errors is the exception filter, AccessLog the interceptor. `serve` of Server takes a
--                request through the middleware, the guards, the handler, the log and the filter, in
--                the order of src/app.module.ts and src/main.ts.
--   Lifecycle    the composition of all of them. The life of one intent as a state machine without
--                the code; the events of the service (Events), each of which is a step of it (Refines),
--                and what holds through any sequence of them (Runs). Evolves, Keeps, Creation and
--                Writing say which methods write intents, and how.
--   Tests        a small platform on which the theorems are applied.
--
-- State and time. The world holds the seven tables and the events emitted so far. A loop over the rows
-- of a query is a loop over a list; the retry loop recurs on the rounds that are left, from the
-- configured number of attempts, so both end without fuel. The decimal print of a memo has twenty
-- digits of fuel, enough for 64 bits. Requests that run at the same time are taken one after the
-- other, except that the end of a creation is stated at any world (Create.Race), which covers a
-- request that is overtaken between its lookup and its insertion. The automatic customer of a
-- payment, which the code does not wait for, is created in the same step; the deliveries of one
-- event, which the code starts together, are taken in the order of the endpoints.
--
-- Not modelled: the framework, which chooses the handler of a request and validates its body
-- (theorems hold for all calls and all values), the start of the HTTP server, the timer of the
-- observer, and the classes for the API documentation. What class-validator finds is a parameter.
-- The Stellar SDK, QR codes, URLSearchParams, JSON, the HMAC, fetch, the dates and numbers of
-- JavaScript and the clock are parameters.
pub mod Base
pub mod Prisma
pub mod Gateway
pub mod Stellar
pub mod Platform
pub mod Intents
pub mod Observer
pub mod Webhooks
pub mod Customers
pub mod Products
pub mod Analytics
pub mod Config
pub mod Http
pub mod Lifecycle
pub mod Isolation
pub mod Tests
