-- ===== src/Archive/Rolling.antt =====
-- board.go with archive.go: archiveOld moves the oldest entries of the log to the archive.
use agentboard.Prelude.{
  ℕ, zero, suc, ◌-◌, ◌/◌, ◌≡◌, refl, sym, ap, subst, length, ◌∙◌, Bool, true, false, ◌||◌, none,
  List, [], ◌∷◌, ◌++◌, arith, leb, if◌then◌else◌, any, any-append, take, drop, is_empty, Str,
}
use agentboard.Model.Data.{Time, Activity}
use agentboard.Board.Types.{Board, ok}
use agentboard.Board.Saving.{needs_archiving, archive_batch, last_id, drop_through, drop_archived}
use agentboard.Board.Consistency.Rules.{IsConsistent, Rising}
use agentboard.Archive.{Outcome, Archive, append_archive, read_archive, merge_activity}
use agentboard.Archive.Reads.{has_id, IsIncreasing, merge_activity-IsReadingOf}
use agentboard.Archive.Keeps.{append_archive-keeps}

first-le-last :
    (a : Activity) (xs ys : List Activity)
    → IsIncreasing (a ∷ (xs ++ ys))
    → leb a.id (last_id (a ∷ xs)) ≡ true
unfolding last_id
first-le-last a [] ys h = ground arith
first-le-last a (x ∷ xs) ys h = ground (arith, first-le-last x xs ys h.1)

-- Of increasing ids, those up to the last of the first part are dropped, and no others.
drop_through-append :
    (a : Activity) (xs ys : List Activity)
    → IsIncreasing (a ∷ (xs ++ ys))
    → drop_through (last_id (a ∷ xs)) (a ∷ (xs ++ ys)) ≡ ys
unfolding last_id drop_through
drop_through-append a [] [] h = ground arith
drop_through-append a [] (y ∷ ys) h = ground arith
drop_through-append a (x ∷ xs) ys h =
    rw (first-le-last a (x ∷ xs) ys h) (drop_through-append x xs ys h.1)

take-drop : (n : ℕ) (xs : List Activity) → take n xs ++ drop n xs ≡ xs
take-drop zero xs = refl
take-drop (suc n) [] = refl
take-drop (suc n) (x ∷ xs) = ap (λ ys. x ∷ ys) (take-drop n xs)

dropped_log :
    (now : Time) (a : Activity) (xs : List Activity) (b : Board)
    → (drop_archived now (a ∷ xs) b).st.activity ≡ drop_through (last_id (a ∷ xs)) b.st.activity
unfolding drop_archived
dropped_log now a xs b = ground arith

drop_archived-activity :
    (now : Time) (batch more : List Activity) (b : Board)
    → is_empty batch ≡ false
    → IsIncreasing (batch ++ more)
    → b.st.activity ≡ batch ++ more
    → (drop_archived now batch b).st.activity ≡ more
unfolding drop_archived
drop_archived-activity now [] more b h inc e = cc
drop_archived-activity now (a ∷ xs) more b h inc e =
    dropped_log now a xs b
    ∙ ap (drop_through (last_id (a ∷ xs))) e
    ∙ drop_through-append a xs more inc

archive_batch-prefix :
    (b : Board) → (rest : List Activity) × (archive_batch b ++ rest ≡ b.st.activity)
unfolding archive_batch
archive_batch-prefix b =
    prefix_if (needs_archiving b) (length b.st.activity - b.max_activity / 2) b.st.activity
  where
    prefix_if :
        (t : Bool) (n : ℕ) (xs : List Activity)
        → (rest : List Activity) × ((if t then take n xs else []) ++ rest ≡ xs)
    prefix_if true n xs = (drop n xs, take-drop n xs)
    prefix_if false n xs = (xs, refl)

-- The ids of a merge.
any-merge :
    (i : ℕ) (archived live : List Activity)
    → any (has_id i) (merge_activity archived live)
      ≡ (any (has_id i) archived || any (has_id i) live)
any-merge i archived live =
    (merge_activity-IsReadingOf archived live).same_ids i ∙ any-append (has_id i) archived live

Rising-IsIncreasing : (low top : ℕ) (xs : List Activity) → Rising low xs top → IsIncreasing xs
Rising-IsIncreasing low top [] h = tt
Rising-IsIncreasing low top (a ∷ []) h = tt
Rising-IsIncreasing low top (a ∷ (b ∷ rest)) h =
    (ground arith, Rising-IsIncreasing a.id top (b ∷ rest) h.1)

-- Archiving loses no entry: when the batch of the first critical section is appended without an error, and is then
-- dropped from the log of a consistent state that grew in between, the archive can be read, and archive and log
-- together have the ids that they had.
pub archive_batch-loses_nothing :
    (now : Time) (outcome : Str → Outcome) (disk : Archive) (old more : List Activity)
    (b later : Board)
    → is_empty (archive_batch b) ≡ false
    → later.st.activity ≡ b.st.activity ++ more
    → IsConsistent later.st
    → read_archive disk ≡ ok old
    → (append_archive true outcome (archive_batch b) disk).1 ≡ none
    → (new : List Activity) × (read_archive (append_archive true outcome (archive_batch b) disk).0
        ≡ ok new)
      × ((i : ℕ)
          → any
              (has_id i)
              (merge_activity new (drop_archived now (archive_batch b) later).st.activity)
            ≡ any (has_id i) (merge_activity old later.st.activity))
archive_batch-loses_nothing now outcome disk old more b later some_batch grown c readable done =
    let inc = Rising-IsIncreasing 0 later.st.next_activity_id later.st.activity c.activity_rising in
    let batch = archive_batch b in
    let (new, read, r) = append_archive-keeps outcome batch disk old readable done in
    let (rest, e) = archive_batch-prefix b in
    let log : later.st.activity ≡ batch ++ (rest ++ more) =
      grown ∙ ap (λ xs. xs ++ more) (sym e) ∙ append_assoc batch rest more in
    let left =
      drop_archived-activity now batch (rest ++ more) later some_batch (subst IsIncreasing log inc)
        log in
    (
      new,
      read,
      λ i.
          any-merge i new _
          ∙ rw (left, r.same_ids i)
              (or_assoc (any (has_id i) old) (any (has_id i) batch) (any (has_id i) (rest ++ more))
                ∙ ap (λ t. any (has_id i) old || t)
                    (sym (any-append (has_id i) batch (rest ++ more))
                      ∙ ap (any (has_id i)) (sym log))
                ∙ sym (any-merge i old later.st.activity)),
    )
  where
    append_assoc : (xs ys zs : List Activity) → (xs ++ ys) ++ zs ≡ xs ++ (ys ++ zs)
    append_assoc [] ys zs = refl
    append_assoc (x ∷ xs) ys zs = ap (λ us. x ∷ us) (append_assoc xs ys zs)

    or_assoc : (a b c : Bool) → ((a || b) || c) ≡ (a || (b || c))
    or_assoc a b c = ground arith
