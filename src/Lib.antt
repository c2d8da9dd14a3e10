-- ===== src/Lib.antt =====
-- The backend of the status dashboard (Go, internal/): the events that the dashboard shows
-- (incidents, maintenances, information), the API that reads, creates and patches them, the checker
-- that moves them along with the clock, and the queue of notification mails about maintenances.
--
-- How the parts interact. A handler of internal/api/v2 takes the caller's role and identity from the
-- request's context, checks the request, and writes through internal/db in one transaction, which
-- also enqueues the notification rows (internal/notification/publisher.go). The checker
-- (internal/checker) reads all maintenances and information events at every tick and writes the
-- status that the clock calls for through the same functions. A worker delivers the queue.
--
-- Which file models which part:
--   Event         internal/event/event.go: types, statuses and their classes
--   Rbac          internal/api/rbac/rbac.go: role names to roles (Resolve, Parse)
--   Model         internal/db/models.go: the structs
--   Store         internal/db: Tables (rows and tables), Read (mappers.go, GetIncident,
--                 getEventsByType), Write (SaveIncidentTx, modifyIncident, write.go), Tx (WithTx,
--                 execWithTx), Events (applyEventsFilters, GetEventsWithCount), Components (models.go,
--                 GetComponent, SaveComponent), Moves (saveIncidentFull,
--                 MoveComponentFromOldToAnotherIncident), Changes (AddComponentToIncident,
--                 ExtractComponentsToNewIncident, IncreaseIncidentImpact), Lookup
--                 (GetEventsByComponentID, GetIncidentsByComponentAttr, GetEventUpdates,
--                 ModifyEventUpdateTx), Sql (conditions on a nullable column); Updates, Versions, Events/Paging, Moves/Edges, Moves/Rows,
--                 Moves/Moved, Changes/Removals and Changes/Extracted hold the proofs
--   Outbox        internal/db/notification.go and notification_ops.go: the queue (Invariant,
--                 Claims, Keys), Retention (DeleteSentBefore), Listing (ListNotificationsByStatus)
--   Notification  internal/notification: Recipients (resolver.go), Publish (publisher.go),
--                 Backoff (notification.go), Worker (worker.go; Measure, Delivery and Ends hold the proofs)
--   Checker       internal/checker: Maintenance (maintenance.go), Info (info.go)
--   Api           internal/api/v2: View (toAPIEvent), Visible (GetIncidentHandler), Patch
--                 (PatchIncidentHandler), Create (prepareIncidentCreate, createEvent), Query
--                 (validation.go, parseFilterParams), Joining (addComponentToSystemIncident,
--                 moveComponentFromToSystemIncidents), System (handleSystemIncidentCreation), Regular
--                 (handleRegularIncidentCreation, PostIncidentHandler), Extract
--                 (PostIncidentExtractHandler), Components (PostComponentHandler,
--                 GetComponentHandler), UpdateText (PatchEventUpdateTextHandler), Notifications
--                 (notifications.go)
--   Static        internal/static: Cache (cache.go; Budget, Lru and Latest hold the proofs)
--   Rss           internal/rss/rss.go: the events of a feed (getEvents, sortEvents) and Items (createFeedItems);
--                 Shown, Order and Announced hold the proofs
--   Tests         runs on concrete data
--
-- Conventions. The state of the program is its database: a table is the list of its rows in the order
-- of their ids, and a function that writes takes the tables and returns them. Functions keep the
-- names of the source in snake case; a Go error is a `Result`, a nil pointer an `Option`. A function
-- that reads the clock takes `now`, one value for one request or for one event of a scan. A transaction
-- runs alone; interleavings are sequences of transactions, and what makes a later one fail is the version
-- that an earlier one raised. The driver's answers to BEGIN and COMMIT, the generated change ids,
-- the database's answers to the statements of Enqueue, the jitter of the backoff, strconv.Atoi and mail.ParseAddress are parameters. A single statement
-- outside a transaction (the reads, ReOpenIncident) does not fail. Times are numbers of
-- nanoseconds; integers that the program keeps in an int are natural numbers or integers
-- without a bound, since none of the modelled code comes near the bounds of 64 bits. All loops run over
-- lists, but those of Drain and DeleteSentBefore, which have fuel. Drain claims until nothing is due:
-- a row is claimed, and its outcome recorded or lost, at most max_attempts times, so
-- (2 * max_attempts + 1) rounds for each row of the queue and one more are enough. A full batch of the
-- deletion removes a row at least, so one round more than the queue has rows is enough. The answers of
-- the mail server, the failures of the statements and the cancellations of the context during
-- these loops are functions of the round. The incident a function changes in place is part of its result:
-- MoveComponentFromOldToAnotherIncident returns the old incident beside the new one.
--
-- Not modelled: the generated client of ent/, HTTP, tokens and JSON, logging and metrics, the mail
-- transport and its templates, configuration, the feed of the first version (internal/api/rss), the
-- proxy for static pages (but its cache), the scheduler, the signal that wakes the worker, the
-- statistics of the queue, the lists of components with their incidents, the availability report.
mod Common
pub mod Event
pub mod Rbac
pub mod Model
pub mod Store
pub mod Outbox
pub mod Notification
pub mod Checker
pub mod Api
pub mod Static
pub mod Rss
mod Tests
