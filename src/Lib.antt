-- ===== src/Lib.antt =====
-- Emergency contact: the decisions of the backend that calls employees after a disaster and records
-- whether they are safe.
--
-- The program. A cycle (backend/lambdas/cycle_api) loads the employees and calls each by Amazon
-- Connect; a call ends with a result code, its recording is transcribed, and the words of the
-- transcript give a voice status. Employees without an answer are called again until their retries
-- are used up. When every call has ended the cycle is completed; timers give a warning after 30
-- minutes and end the cycle after 60. An employee may also call in: the caller's number selects the
-- employee, and the cycles select the flow. The decisions are pure functions of backend/shared,
-- which the handlers of backend/lambdas call; the development models these functions and the
-- handlers that start a cycle, call, end a call, decide on the next call, answer an incoming call,
-- change the keyword dictionary, move and record a recording, start a transcription, classify a
-- transcript, end a cycle, and guard a login.
--
-- The files, with the code each is about (the paths are below backend/):
--   Prelude        shared names: Boolean tests, lists and integers over the native numbers
--   Python         Python's values, exceptions, texts, order of texts, and stable sort; Floats: quotients
--                  that are floats; Actions: calls with effects, whose state comes back after an
--                  exception
--   Aws            Tables and Rows: a DynamoDB table, its calls, and what it documents of a write;
--                  Retries: the loop of bounded retries that two handlers have
--   Retry          and its Times: shared/retry/evaluator.py; Handler:
--                  lambdas/retry_evaluator/handler.py
--   Cycle          Finalize: shared/cycle/finalize.py; Exclusivity: shared/cycle/exclusivity.py
--   Inbound        Selection: shared/inbound/cycle_selection.py; Listing: shared/inbound/listing.py;
--                  Moments: instants of datetime; Events, Items, Handler:
--                  lambdas/inbound_handler/handler.py
--   Auth           Lockout: shared/auth/lockout.py; Authorization: shared/auth/authorization.py;
--                  Failures: how the trigger before a login reads the lockout table;
--                  Triggers: lambdas/auth_pre_auth/handler.py and auth_post_auth/handler.py;
--                  Reporter: lambdas/auth_failure_reporter/handler.py
--   Employee       Visibility, Duplicate, Validate: shared/employee/visibility.py, duplicate.py and the
--                  telephone numbers of validate.py; Email: its mail addresses
--   CycleApi       Request, Handler, Routes: lambdas/cycle_api/handler.py
--   Calls          Dispatch: lambdas/connect_dispatcher/handler.py; Ending:
--                  lambdas/call_end_handler/handler.py; Services: the calls they make
--   Recording      Keys, Native: shared/recording/connect_key.py; Parsing, JobName:
--                  shared/recording/s3_keys.py; Metadata: lambdas/recording_metadata_writer/handler.py;
--                  Relocator: lambdas/recording_relocator/handler.py
--   Transcription  Starter, Sample: lambdas/transcribe_starter/handler.py
--   Keyword        Matcher: shared/keyword/matcher.py; Transcript: shared/keyword/transcript.py; Event,
--                  Handler: lambdas/keyword_matcher/handler.py
--   Dictionary     Snapshot, ActiveCount: shared/dictionary/snapshot.py and active_count.py; the query of
--                  a snapshot stands in Keyword.Handler; Changes, Api: lambdas/dictionary_api/handler.py
--   Connect        CallResult, Mock: shared/connect/call_result.py and mock.py
--   Validation     shared/validation/range_enum.py
--   Audit          Mask: shared/audit/mask.py
--   Finalizer      Event, Handler: lambdas/cycle_finalizer/handler.py; Services: the calls it makes
--   Examples       the theorems at concrete inputs
--
-- How the code is modelled. A function has its name in the source, without a leading underscore. A
-- value of unknown type is a `Value`: null, Boolean, integer, Decimal, text, list or dict, so that
-- the type tests of the source are the clauses of the definition. A function that raises returns a
-- `Result`, with the class of the exception and without its message; a ClientError has its code.
-- The loops are structural recursion on lists, so no fuel is needed; the client that follows the
-- pages of a list is given as many pages as the list has items, and a loop of retries the number of
-- its turns. A quotient that the code rounds or truncates is the float nearest to it, as Python
-- gives it.
--
-- A handler is an action on the state of the services it calls; a raised exception keeps the state
-- that the calls before it made. The services are a record of actions, one for each kind of call,
-- and what DynamoDB documents of a write, with that the other calls leave the table alone, is the
-- hypothesis `Documented` or `IsStore`. A write that raises may have written or not. A query
-- delivers its pages as one list. What is put out as JSON is the value that is dumped, and a reply
-- of the API stands for its response.
--
-- Parameters. `datetime.fromisoformat`, `isoformat`, `strftime`, the case mappings `str.lower` and
-- `str.upper`, `json.loads`, `str` of a value, `int` of a text, the decimal digits and the spaces
-- among the code points, the floats of a transcript, and the first byte of a SHA-256 digest are
-- parameters. Nothing is assumed of them, but for the key of a recording, also of one that is
-- moved, that `str` writes a number in digits and that a slash is no digit, for a telephone number
-- that 8 and 1 are digits, for the transcript of the mock how its confidence is read, and for the
-- wait before a call that a time in UTC which `isoformat` writes is read as that time.
--
-- Not modelled: the APIs of the recordings, employees and responses, which read and write DynamoDB,
-- S3, SNS and Connect; an update by another writer in the midst of a run; the text of dates and
-- times; the delay of a retry, which is a float; the import of employees from CSV and the check of
-- their names; encryption; the frontend and the infrastructure.
pub mod Prelude
pub mod Python
pub mod Recording
pub mod Retry
pub mod Cycle
pub mod CycleApi
pub mod Inbound
pub mod Auth
pub mod Employee
pub mod Keyword
pub mod Connect
pub mod Dictionary
pub mod Validation
pub mod Audit
pub mod Aws
pub mod Calls
pub mod Finalizer
mod Examples
pub mod Transcription
