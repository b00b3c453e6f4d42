-- ===== src/Examples/Archives.antt =====
-- The first two of three entries of a log go to an empty archive.
use agentboard.Prelude.{ℕ, ◌≡◌, refl, true, none, List, [], Str, runes, any, str_eq}
use agentboard.Model.Date
use agentboard.Text.Decimal.{decimal}
use agentboard.Model.Data.{State, Activity, new_state}
use agentboard.Board.Types.{Board, ok}
use agentboard.Board.Leases.{log}
use agentboard.Board.Saving.{archive_batch, drop_archived}
use agentboard.Board.Consistency.Rules.{IsConsistent}
use agentboard.Board.Consistency.Parts.{log-IsConsistent}
use agentboard.Board.Consistency.Calls.{new_state-IsConsistent}
use agentboard.Archive.{
  Outcome, year_and_month, written, append_archive, write_files, write_member, file_names,
  read_archive, read_files, unseen, merge_activity,
}
use agentboard.Archive.Reads.{has_id}
use agentboard.Archive.Keeps.{IsAppended, append_archive-keeps}
use agentboard.Archive.Rolling.{archive_batch-loses_nothing}
use agentboard.Examples.Data.{fresh_board}

abbrev first : State
first = log 10 (runes "ann") [] (runes "project_created") (runes "AB") new_state

abbrev logged : State
logged =
    log 30 (runes "bob") (runes "AB-1") (runes "claimed") []
      (log 20 (runes "ann") (runes "AB-1") (runes "created") [] first)

logged-IsConsistent : IsConsistent logged
logged-IsConsistent =
    log-IsConsistent 30 (runes "bob") (runes "AB-1") (runes "claimed") []
      (log 20 (runes "ann") (runes "AB-1") (runes "created") [] first)
      (log-IsConsistent 20 (runes "ann") (runes "AB-1") (runes "created") [] first (
        log-IsConsistent 10 (runes "ann") [] (runes "project_created") (runes "AB") new_state
          new_state-IsConsistent))

abbrev long_board : Board
long_board = record fresh_board { st = logged; archive_dir = runes "archive"; max_activity = 2 }

abbrev on_disk : Str → Outcome
on_disk n = written

entry : ℕ → Activity
entry n = record { id = n; time = 0; actor = []; task_id = []; action = []; detail = [] }

nothing_yet : read_archive [] ≡ ok []
unfolding read_archive read_files unseen
nothing_yet = refl

appended : (append_archive true on_disk (archive_batch long_board) []).1 ≡ none
unfolding append_archive write_files write_member file_names archive_batch log new_state str_eq
    Date.days_in
appended = refl

append_archive-keeps_example :
    (new : List Activity) × (read_archive
        (append_archive true on_disk (archive_batch long_board) []).0
      ≡ ok new)
    × IsAppended [] (archive_batch long_board) new []
append_archive-keeps_example =
    append_archive-keeps on_disk (archive_batch long_board) [] [] nothing_yet appended

archive_batch-loses_nothing_example :
    (new : List Activity) × (read_archive
        (append_archive true on_disk (archive_batch long_board) []).0
      ≡ ok new)
    × ((i : ℕ)
        → any (has_id i) (
            merge_activity new (drop_archived 40 (archive_batch long_board) long_board).st.activity)
          ≡ any (has_id i) (merge_activity [] long_board.st.activity))
archive_batch-loses_nothing_example =
    archive_batch-loses_nothing 40 on_disk [] [] [] long_board long_board
      (unfold archive_batch log new_state in refl) (unfold log new_state in refl)
      logged-IsConsistent nothing_yet appended

-- A year of more than four digits is printed in full.
late_year : year_and_month (record { year = 12345; month = 6; day = 1 }) ≡ runes "1234506"
unfolding year_and_month decimal
late_year = refl

early_year : year_and_month (record { year = 2026; month = 11; day = 3 }) ≡ runes "202611"
unfolding year_and_month
early_year = refl
