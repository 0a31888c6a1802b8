-- ===== src/Lib.antt =====
-- A model of the backend of a subscriptions service (app/), which manages the SIMs of companies at
-- the mobile providers Kite, Tele2 and Moabits.
--
-- Errors is app/shared/errors.py and the handlers of app/main.py: an exception is a value, and a
-- call that may raise returns a `Result`. Database stands for what the code uses of SQLAlchemy and
-- PostgreSQL: a table is a list of rows, `scalar_one_or_none` the strict reading of at most one row.
-- Identity is the roles of app/identity, Domain app/subscriptions/domain.py and the part of
-- app/providers/base.py that the services call.
--
-- Resilience is the circuit breaker of app/shared/resilience.py. A call is split at its await, into
-- the admission and the settlement, so that calls overlap: Resilience/Interleaving runs any sequence
-- of such steps.
--
-- Routing is app/subscriptions/services/routing.py: from an ICCID to the provider that holds the SIM.
-- Routing/Text reduces ICCIDs, Routing/Table is the two tables, Routing/NegativeCache the cache of
-- misses, and Routing/Resolve the resolution, which discovers a SIM at the providers when no table
-- knows it.
--
-- Sync is app/sync: the jobs that crawl a provider's listing into the routing table. Sync is the
-- endpoints and the nightly scheduler, Sync/Crawl the task itself.
--
-- Lifecycle is the write endpoints of app/subscriptions/routers/sims.py with the idempotency keys and
-- the audit of app/subscriptions/services/idempotency.py.
--
-- Identity/Sessions is the login, the refresh and the logout of app/identity/routers/auth.py, and
-- Identity/Users the creation, the update and the deletion of app/identity/routers/users.py.
--
-- Dict is Python's dictionaries with their order. Dispatch is
-- app/subscriptions/services/provider_dispatch.py: the split of a page limit over calls and what an
-- answer says of a call that failed. Cursors is app/subscriptions/services/cursors.py, with the
-- padding of its tokens; the json and base64 libraries are parameters.
--
-- Normalization is app/subscriptions/services/normalization.py, from a provider's SIM to the one that
-- is shown, and Filters is app/subscriptions/services/filters.py: the query parameters and the test
-- that a SIM passes after its provider has answered.
--
-- Listing is app/subscriptions/services/listing.py: Listing/Global pages through all providers,
-- Listing/Provider through one, Listing/Iccid finds one SIM, Listing/Search searches with filters for
-- each provider, and Listing/Admin and Listing/AdminSearch do both over the credentials of all
-- companies (Listing/Credentials). The calls of a page are independent of one another; their answers
-- are merged in the order of the calls, as the code merges what it gathers.
--
-- Stats is app/subscriptions/services/stats.py, which counts at most 100 pages of a provider and
-- marks the counts as partial when there are more. Endpoints is the read endpoints of
-- app/subscriptions/routers/sims.py, which put these services together: the listings, the statistics
-- (Endpoints/Statistics), the batch of details (Endpoints/Details), one SIM, and the import.
--
-- The listing over all providers catches what an upsert or the conversion of a SIM raises, and there
-- both are modelled, with the transaction that such an upsert aborts. Elsewhere in Listing and Stats
-- they are taken not to raise: in Listing they would end the request with an error, and no page is
-- answered, and in Stats the provider would count as failed. The conversion of a
-- SIM may also raise in the batch of details, for one SIM, and for an ICCID whose provider is known.
--
-- Times are whole microseconds, on the monotonic clock of the negative cache whole nanoseconds; ids
-- are UUIDs, which the code only compares, and stand as numbers or texts. A crawl gets the number of
-- page requests that its worker lives for; as many as there are pages are enough. Commits are taken
-- as atomic, and a request reads the tables that it started with, except where a module runs two
-- requests against one another (Sync/Race).
--
-- Providers, the queue, the loading and the decryption of credentials, the letter cases and the
-- Unicode classes of characters, and the parsing and the rendering of dates are parameters. HTTP, SOAP
-- and the provider adapters, the endpoints of companies and credentials, the expiry of credentials, the
-- endpoints for the usage, the presence, the location and the histories of a SIM, the reading of users,
-- the signup and the own profile are not modelled.
pub mod Prelude
pub mod Errors
pub mod Resilience
pub mod Database
pub mod Identity
pub mod Sync
pub mod Dict
pub mod Dispatch
pub mod Cursors
pub mod Normalization
pub mod Filters
pub mod Listing
pub mod Stats
pub mod Domain
pub mod Routing
pub mod Lifecycle
pub mod Endpoints
