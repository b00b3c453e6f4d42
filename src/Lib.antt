-- ===== src/Lib.antt =====
-- agentboard: a task board that agents share. One Board keeps the projects, tasks, agents, users and
-- the activity log in memory under a mutex; each call first hands back tasks whose lease has run out,
-- then checks its input and changes the state, then tells subscribers and has the change saved.
--
-- The parts and their files, with paths from the repository's root:
-- - Model (model/model.go, model/date.go): the data types, the enumerations Status, Priority and Kind,
--   and calendar dates (ParseDate is parse_date, String is text, MarshalJSON is marshal_json).
--   Model/Calendar writes out the calendar of package time: it numbers the days from 0001-01-01 on;
--   Calendar/Order orders them, Calendar/Shift has DateOf, NewDate, AddDays and AddMonths.
-- - Text: the regular expressions keyRE, nameRE and labelRE of board.go as functions, TrimSpace and
--   ToLower, and task ids (splitID, idLess) in Text/TaskId; Text/Decimal prints and reads numbers.
-- - Password (pbkdf2.go): pbkdf2SHA256, hashPassword, verifyPassword.
-- - Board (board.go, auth.go, login.go, types.go). Types has the errors, events, requests and the Board
--   itself; Inputs the limits and input checks; Leases the log, the sweep and the agents' records; Do
--   has do (do_locked), persistAndPublishLocked, Sweep and Subscribe; Open has Options and Open. Tasks,
--   Claims, Update and Accounts have one function per method, in three parts: the checks before the lock (check_*), the
--   closure that do runs (*_action), and the method. Saving has saveNow in its critical sections,
--   archiveOld, Flush, Close, SaveStatus and Shutdown; Queries what the board lists and exports; Calls
--   the methods as data, and histories of calls.
-- - Sessions (sessions.go): Store has sessionStore, Limiter loginLimiter; Calls, Validity, Logout and
--   Window have histories of their calls.
-- - Store (store.go): Validate has ValidateState and migrate, Format EncodeFile, Decode DecodeState and
--   DecodeFile, Files FileStore and MemStore over a disk of three files (the data file, its backup and
--   the temporary file), with the stages in which a save can fail. Accepts, RoundTrip, Damage and Crash
--   have the proofs.
-- - Archive (archive.go): archiveFileName, appendArchive, ReadArchive and MergeActivity; Reads, Readable
--   and Keeps have the proofs, and Rolling those of archiveOld, which calls them.
-- - Lock (lock.go): the system calls of AcquireLock, Release and SetAddr as turns of the processes, with
--   ReadLock and ForceUnlock; Owned, Reads, Releases, Exclusive and Takeover have the proofs.
-- - Webhook (webhook.go): SignWebhookBody, VerifyWebhookSignature, ValidateWebhookURL and deliver.
-- - Server (auth_server.go, and reply of server.go): the handlers of accounts and logins over the Board,
--   the sessions and the limiter.
-- - View (internal/view): Timeline (timeline.go), with Months, Weeks, Bars and Rows for the proofs;
--   Filter (filter.go), its query string in Filter/Query; Columns, Hierarchy and Labels (view.go).
-- - Proofs: Board/Consistency (the invariant, one file per group of methods), Board/Sweep,
--   Board/Exclusion, Board/Atomic, Board/Edits, Board/Listing, Board/WriteBehind and Board/Opened (saves
--   and calls as steps).
-- - Examples: instances of the theorems at concrete inputs.
--
-- How the code is modelled:
-- - A method takes the call's Env (the clock, and what Store.Save answers) and the Board, and returns
--   the new Board and a Reply: a value, `none` for Go's zero value, beside an error. An error is its
--   sentinel without the text. A method runs whole: the mutex lets no other call in between, and where
--   the code gives the mutex up (saveNow, Register, Authenticate) the parts are functions of their own.
-- - A Go map is an association list with one entry per key. Where the code ranges over a map, the
--   model follows the list's order. A shared pointer to a map's entry is a lookup followed by an
--   insert under the same key; the copies that the code hands out are values.
-- - Text is a list of runes, so Go's len is byte_len; strings are valid UTF-8. ToLower changes ASCII
--   letters only. A time is its nanoseconds since year 1, the zero time 0, and differences of times
--   stop at 0. Integers are unbounded: no counter wraps round.
-- - A subscriber's channel is a queue of at most 16 events. The Store is the state that it holds.
-- - JSON, deflate and CRC-32C are the fields of a Codec (Store/Format); of them the theorems assume, for
--   the states at hand, that they read back what they wrote. A SaveStage, a MigrateFault or an
--   Outcome stands for the system's answer to a call on a file.
-- - The members of an archive file are lists of entries, or torn; gzip and the JSON of a line are not
--   written out. The float64 fractions of the timeline are exact: a numerator over the window's days.
--   A time.Duration stops at its bounds where the code's result depends on it (days_between, time_sub).
-- - The JSON copy that Export makes (`decode`), HMAC-SHA256 (`prf`) and mail.ParseAddress
--   (`parse_address`) are parameters. Of `prf` the theorems assume that its results have 32 bytes;
--   of rand.Read that its salt is not empty.
-- - Recursion is structural; decimal has fuel one above the number, which is more than its digits, and
--   the loops of MonthsInWindow have as fuel the number of the window's last day, of which each turn
--   uses up one at least. A day before 0001-01-01 does not exist: a shift stops there.
--
-- Not modelled: the HTTP server but for those handlers, and the client, the command line and the browser UI (input and output),
-- the writer goroutine's timers (its saves are steps of Board/WriteBehind, which leave out
-- Authenticate, Export and Shutdown), cancelled contexts, the timing of logins, JSON beyond a codec's
-- laws, net/url beyond those of an encoding, the goroutine of a webhook, locks of another host, the
-- reuse of a pid, and the limit of 1 MiB on a line of an archive. A file's null entries, which ValidateState refuses, have no counterpart in an
-- association list.
pub mod Prelude
pub mod Text
pub mod Model
pub mod Password
pub mod Board
pub mod Sessions
pub mod Store
pub mod Archive
pub mod Lock
pub mod Webhook
pub mod Server
pub mod View
pub mod Examples
