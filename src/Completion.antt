-- ===== src/Completion.antt =====
-- The queue of completed asynchronous requests, and the notification of its consumer.
pub mod Notification
pub mod Queue
