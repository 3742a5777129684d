-- ===== src/Lib.antt =====
-- Little Orbit is a private app for couples: shared notes that both partners edit at once, an
-- activity timeline, time spent together estimated from both phones' locations, quizzes written by
-- a local language model, and more. This library models core logic of its API service, in
-- services/api/src/little_orbit_api, which the tables of one PostgreSQL database connect: a note edit
-- records an activity event, and so do a smooch and an attachment that becomes available; the location
-- routes feed the together-time estimates; attachments reserve their bytes in one storage row; a pairing
-- makes the couple that the other tables hang on, and its end clears them; and the AI runner takes its
-- work from a queue in which leases keep two runners apart, under a file lock on the GPU.
--
-- The files, with the source each models (paths from services/api/src/little_orbit_api):
-- - Prelude: Boolean tests, lists over the native numbers, texts as lists of code points.
-- - Note.Edit: domain/notes.py (apply_edit, transform). Note.Slices has lemmas on texts cut and put
--   together, Note.Converge the laws of concurrent edits.
-- - Note.Live: note_edit_service.py (_apply_locked and what it calls). A run takes the tables and
--   gives the reply with the new tables; an InvalidEdit is the result `raises`. Note.Live.History
--   ties the table of operations to the body, Note.Live.Accepts has the laws of a run.
-- - Activity: activity_service.py, routes/activity.py, and the purge of events in maintenance.py.
--   Activity.Order and Activity.Unread have its laws.
-- - Location: domain/location.py. Types has the data, Proximity the classification of two samples,
--   Streams the merging of both phones' samples, Minutes the split into minutes, Timeline the whole
--   estimate with its bridges, Projection the live display; their children have the laws.
-- - Queue: ai_work_queue.py. Schedule has the enqueueing; Claims, Tombstones, Releases and
--   Schedule.Enqueues have the laws, the second over a step relation of all transactions on the table.
-- - Throttle: rate_limit.py. Throttle.Limits has its laws.
-- - Duplicates: note_deduplication.py. Archive and Groups have its laws.
-- - Together: the pure helpers of together_time_service.py. Together.Ranges has their laws.
-- - Storage: attachment_quota.py. Storage.Accounting has its laws.
-- - Pairing: couple_access.py and the rows of a relationship. Codes has routes/pairing.py, Teardown
--   relationship_service.py; Members, Invariant, Consumed and Cleared have the laws, over a step
--   relation of all their transactions.
-- - Uploads: routes/attachments.py and attachment_storage.py; Uploads.Scan has the worker of
--   attachment_media.py, Scan.Outcome what it makes of an attachment, Chunks the uploads and deletions.
--   Lifecycle ties them to Storage over a step relation, in which the worker's read, its publication and
--   its rejection or retry are transactions of their own, with the lemmas of Balance, Steps, Uploading
--   and Settling; Doubled has two deletions at once, and Late a retry after another worker's rejection.
-- - GpuLock: the class GpuFileLock of gpu_coordination.py. GpuLock.Life has its laws.
-- - Runner: ai_work_runner.py over Queue and GpuLock. Work has the tasks and the generation run with the
--   table ai_runs of quiz_learning_service.py; Endings, Completed and Work.Horizon have the laws.
-- - Smooch: routes/smooches.py and smooch_service.py. Hourly, Prior and Retried have the laws, over a
--   step relation of sends, acknowledgements and changes of the couples; Received has the other routes.
-- - Bootstrap: the PIN and the start of a setup of big_orbit_bootstrap.py, with create_enrollment_device
--   of big_orbit_auth.py in Setup. Attempts, Later and Once have the laws, the
--   second over a step relation of the transactions that follow.
-- The Examples modules run the code on concrete inputs.
--
-- Conventions: a table is the list of its rows, and a transaction that holds its locks is one
-- function on it. Identifiers (UUIDs) are numbers, times are microseconds since the epoch, and
-- distances and accuracies are whole numbers of one small unit. A comparison with `now - span` is
-- written with the sum on the other side, so that no subtraction is cut off at 0.
--
-- Bounds: the loop of _split_minutes runs on fuel, one round for each whole minute from the start
-- to the end of its interval and one more: each round ends its minute, so they are enough. All
-- other recursion is structural.
--
-- Parameters: haversine_m (floating-point trigonometry of Python's math), the zone database, the
-- tokens and ids of uuid4, the digests and password checks of security.py, the notification
-- component's answer, the rows that other transactions have locked, what the scanner, the sanitisers
-- and the disk say of an attachment's bytes, how a GPU task ends, and what the probe of the device says.
--
-- Not modelled: the other web routes and authorisation queries, accounts and sessions, notifications,
-- the decoding of media, mail, the quiz pipelines and the language model, releases, the Android app,
-- the web site and the infrastructure scripts. They are mostly input and output, third-party calls
-- and generated configuration around the parts above.
pub mod Prelude
pub mod Note
pub mod Activity
pub mod Location
pub mod Queue
pub mod Storage
pub mod Throttle
pub mod Together
pub mod Duplicates
pub mod GpuLock
pub mod Pairing
pub mod Smooch
pub mod Runner
pub mod Bootstrap
pub mod Uploads
