-- ===== src/Lib.antt =====
-- The PackFinderz backend: how a vendor's order is decided, canceled, expired, retried, delivered and
-- paid, what that does to stock, and how its events reach the broker; the prices that a cart is quoted
-- and the totals that a checkout makes of them; how the licenses of a store are verified, expire and
-- are deleted, and what that makes of the store; and how a store's subscription at Square is made,
-- paused, resumed, canceled and mirrored.
--
-- Parts of the program and where they are modelled:
--   Enums, Errors      pkg/enums, and the codes of pkg/errors.
--   Store              Tables are the rows of pkg/db/models, each table a list; those of licenses and
--                      of subscriptions are in Licensing and Billing. Tx has the monad of a service
--                      method, with `Client.WithTx` of pkg/db/client.go as `with_tx`. Repo has the
--                      queries of internal/orders/repo.go, the release of stock of
--                      internal/orders/service.go, and `Emit` and `Exists` of pkg/outbox. Columns
--                      are the maps of columns that the updates take. Post, Always and Atomic are
--                      the rules by which the proofs go through a method; Queries has one for each
--                      query, Outcome has them for both ends of a run, and Silent for what is asked
--                      of Square.
--   Ledger             internal/ledger/service.go. cmd/api/main.go gives it the plain connection, so
--                      its rows stand outside the caller's transaction, and a rollback keeps them.
--   Reservation        internal/checkout/reservation/reservation.go.
--   Orders             internal/orders/service.go, by operation: Decision (`VendorDecision`,
--                      `LineItemDecision`), Buyer (`CancelOrder`, `NudgeVendor`), Retry
--                      (`RetryOrder`), Agent (`AgentPickup`, `AgentDeliver`), Cash
--                      (`AgentCashCollected`), Payout (`ConfirmPayout`), and in Input what they
--                      share. Run makes one step of any of them, and `Reach` is any sequence of
--                      steps. Returns has what each transaction has done where it returns.
--   Cron               internal/cron: OrderTtl is order_ttl_job.go, LicenseLifecycle is license_job.go
--                      and SubscriptionReconcile is subscription_reconcile_job.go.
--   Publisher          cmd/outbox-publisher/service.go, with pkg/outbox/registry/publisher.go and the
--                      fetch of pkg/outbox/repository.go; Batch has the marks of that repository and
--                      the loop of `processBatch`.
--   Quote              internal/cart/quote_preprocess.go and `selectVolumeDiscount` of
--                      internal/cart/service.go.
--   Checkout           `computeVendorOrderTotals` of internal/checkout/service.go.
--   Licenses           internal/licenses: its repository, with the queries on stores and memberships
--                      that it makes. Service has its service, Listing `ListLicenses`, and Scheduler
--                      internal/schedulers/licenses/service.go. Run makes one step of any of them or
--                      of the job, and the others are about what a step keeps.
--   Subscriptions      the subscriptions of internal/billing/repo.go. Mapper is mapper.go of
--                      internal/subscriptions; Create, Change and, with what they share, Service
--                      are its service.go. Webhook is internal/webhooks/square/service.go. The
--                      others are about what they do.
--   Media              the attachments of internal/media and their reconciler.
--   Pages              pkg/pagination/pagination.go and the two ways in which the services cut a list
--                      into pages.
--   Text               what the program uses of Go's package strings.
--   Tests              the services on concrete data.
--
-- Conventions. An identifier is a natural number, and 0 is uuid.Nil; a time is a number of seconds.
-- Go's int is an integer whose `+`, `-` and `*` wrap at 64 bits. A call that leaves the process can
-- fail: `Env.fails` says which calls do, in any pattern, and a failed call writes nothing. Between
-- two steps of a sequence the environment may be another. Columns that hold stock are natural
-- numbers, as their CHECK constraints require. New rows get identifiers from `Env.fresh`; an
-- identifier that a row has already is refused, as a primary key refuses it. Steps are atomic:
-- two transactions that run at the same time are not interleaved. Every loop of the program is over
-- a list; only the walks of Pages, which stand for a client, run on fuel, and one page more than
-- there are rows is enough. A cursor's text stands for the time and the identifier in it.
--
-- What is a parameter: the answers of the broker and of encoding/json in Publisher (`Broker`), and
-- in Quote the rounding of a price's percentage by floating-point numbers; and the answers of the
-- client of Square (`Env.square`), which may depend on all requests before. The requests themselves
-- are kept in order in the world, and no rollback takes one back.
--
-- Not modelled: the HTTP layer, the counts and filters of the lists, the texts of errors, log
-- lines and metrics, the polling loop of the publisher, the loading and saving around a quote, the
-- rest of a checkout, and billing but for subscriptions.
pub mod Prelude
pub mod Enums
pub mod Errors
pub mod Store
pub mod Ledger
pub mod Reservation
pub mod Orders
pub mod Cron
pub mod Publisher
pub mod Quote
pub mod Checkout
pub mod Tests
pub mod Text
pub mod Media
pub mod Licenses
pub mod Pages
pub mod Subscriptions
