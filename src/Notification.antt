-- ===== src/Notification.antt =====
-- internal/notification: who is notified of a maintenance change, the rows that a publication
-- enqueues, the retry delay, and the worker that delivers the queue.
pub mod Recipients
pub mod Publish
pub mod Backoff
pub mod Worker
