-- ===== src/Archive.antt =====
-- archive.go: the archive files of old activity. The files under the directory are a table from names to
-- gzip members; gzip, the JSON of one line and the limit of 1 MiB on a line are not modelled: a member is the
-- version in its header line and its entries, or a member that a failed write cut short.
pub mod Reads
pub mod Readable
pub mod Keeps
pub mod Rolling
use agentboard.Prelude.{
  ℕ, ◌/◌, Bool, true, false, ◌&&◌, ◌||◌, Option, none, some, List, [], ◌∷◌, ◌++◌, ◌%◌, ◌+◌, ltb,
  leb, ◌==◌, if◌then◌else◌, is_empty, any, keep, take, drop, sort_by, Str, runes, str_eq, str_lt,
  Table,
}
use agentboard.Model.Data.{Activity}
use agentboard.Model.Date.{Date}
use agentboard.Text.Decimal.{decimal}
use agentboard.Model.Calendar.Shift.{date_of_time}
use agentboard.Board.Types.{Error, Result, ok, err, ◌>>=◌}

abbrev pub archive_version : ℕ
archive_version = 1

pub data Member : Type 0 where
  member : ℕ → List Activity → Member
  torn : Member

abbrev pub Archive : Type 0
Archive = Table (List Member)

abbrev two_digits : ℕ → Str
two_digits n = (48 + n / 10 % 10) ∷ (48 + n % 10) ∷ []

-- `Format("200601")`: at least four digits of the year, and the month.
unfoldable pub year_and_month : Date → Str
year_and_month d =
    (if ltb d.year 10000 then two_digits (d.year / 100) ++ two_digits d.year else decimal d.year)
    ++ two_digits d.month

-- The month of the entry, UTC, in its name.
unfoldable pub archive_file_name : Activity → Str
unfolding date_of_time year_and_month
archive_file_name a = runes "activity-" ++ year_and_month (date_of_time a.time) ++ runes ".jsonl.gz"

-- The names of the entries' files, each once, in the order in which they come up.
unfoldable pub file_names : List Str → List Activity → List Str
unfolding archive_file_name
file_names seen [] = []
file_names seen (e ∷ rest) =
    let n = archive_file_name e in
    if any (str_eq n) seen then file_names seen rest else n ∷ file_names (n ∷ seen) rest

-- `byFile[n]`
unfoldable pub entries_of : Str → List Activity → List Activity
unfolding archive_file_name
entries_of n entries = keep (λ e. str_eq (archive_file_name e) n) entries

-- What the system does with the append to one file: all of it, an error at the open, an error before a byte is
-- written to the file that the open creates, an error within the member, or an error of Sync or Close after all of it.
pub data Outcome : Type 0 where
  written refused unwritten cut unsynced : Outcome

-- O_CREATE and O_APPEND
unfoldable pub append_to : Str → List Member → Archive → Archive
append_to n new [] = (n, new) ∷ []
append_to n new ((j, ms) ∷ disk) =
    if str_eq j n then (j, ms ++ new) ∷ disk else (j, ms) ∷ append_to n new disk

-- The new archive and the error, if there is one.
unfoldable pub write_member : Outcome → Str → List Activity → Archive → Archive × Option Error
unfolding append_to
write_member written n es disk = (append_to n (member archive_version es ∷ []) disk, none)
write_member refused n es disk = (disk, some Error.store_failed)
write_member unwritten n es disk = (append_to n [] disk, some Error.store_failed)
write_member cut n es disk = (append_to n (torn ∷ []) disk, some Error.store_failed)
write_member unsynced n es disk =
    (append_to n (member archive_version es ∷ []) disk, some Error.store_failed)

-- What is left to do is done only if there is no error.
abbrev pub stop_at : Option Error → Archive → Archive × Option Error → Archive × Option Error
stop_at none now rest = rest
stop_at (some e) now rest = (now, some e)

-- The loop over the files, which the first error ends.
unfoldable pub write_files :
    (Str → Outcome) → List Activity → List Str → Archive → Archive × Option Error
unfolding write_member entries_of
write_files outcome entries [] disk = (disk, none)
write_files outcome entries (n ∷ names) disk =
    let (next, error) = write_member (outcome n) n (entries_of n entries) disk in
    let rest = write_files outcome entries names next in stop_at error next rest

-- `made` is whether MkdirAll succeeds.
unfoldable pub append_archive :
    Bool → (Str → Outcome) → List Activity → Archive → Archive × Option Error
unfolding file_names write_files
append_archive made outcome entries disk =
    if made
    then write_files outcome entries (sort_by str_lt (file_names [] entries)) disk
    else (disk, some Error.store_failed)

-- The entries of one file's members.
unfoldable pub read_members : List Member → Result (List Activity)
read_members [] = ok []
read_members (torn ∷ ms) = err Error.corrupt
read_members (member v es ∷ ms) =
    if ltb archive_version v then err Error.invalid else read_members ms >>= λ rest. ok (es ++ rest)

-- An empty file has no gzip header.
unfoldable pub read_file : List Member → Result (List Activity)
unfolding read_members
read_file [] = err Error.corrupt
read_file (m ∷ ms) = read_members (m ∷ ms)

unfoldable pub read_files : Archive → Result (List Activity)
unfolding read_file
read_files [] = ok []
read_files ((n, ms) ∷ files) = read_file ms >>= λ es. (read_files files >>= λ rest. ok (es ++ rest))

-- The entries whose id did not come up before.
unfoldable pub unseen : List ℕ → List Activity → List Activity
unseen seen [] = []
unseen seen (a ∷ rest) =
    if any (λ i. i == a.id) seen then unseen seen rest else a ∷ unseen (a.id ∷ seen) rest

abbrev pub by_id : Activity → Activity → Bool
by_id a b = ltb a.id b.id

abbrev pub by_name : Str × List Member → Str × List Member → Bool
by_name a b = str_lt a.0 b.0

-- A missing directory is the empty table.
unfoldable pub read_archive : Archive → Result (List Activity)
unfolding read_files unseen
read_archive disk = read_files (sort_by by_name disk) >>= λ es. ok (sort_by by_id (unseen [] es))

unfoldable pub merge_activity : List Activity → List Activity → List Activity
unfolding unseen
merge_activity archived live = sort_by by_id (unseen [] (archived ++ live))
