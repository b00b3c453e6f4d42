-- ===== src/Archive/Keeps.antt =====
-- archive.go: an append that succeeds keeps what the archive held, and adds the entries.
use agentboard.Prelude.{
  ℕ, ◌≡◌, refl, sym, ap, ◌∙◌, inl, inr, Bool, true, false, ◌&&◌, ◌||◌, Option, none, List, [], ◌∷◌,
  ◌++◌, arith, Bool-cases, any, any-append, any-sort_by, any-keep, any-witness, sort_by, Str,
  str_eq, str_lt, str_eq_iff, str_eq_refl,
}
use agentboard.Model.Data.{Activity}
use agentboard.Board.Types.{Error, ok}
use agentboard.Archive.{
  archive_version, Member, member, Archive, archive_file_name, file_names, entries_of, Outcome,
  written, refused, unwritten, cut, unsynced, stop_at, append_to, write_member, write_files,
  append_archive, read_archive,
}
use agentboard.Archive.Reads.{has_id, IsIncreasing}
use agentboard.Archive.Readable.{
  is_bad, bad_file, member_holds, file_holds, holds, read_archive-fine, read_fine,
}

bad_file-append :
    (j : Str) (w : List Member) (es : List Activity)
    → bad_file (j, w) ≡ false
    → bad_file (j, w ++ (member archive_version es ∷ [])) ≡ false
unfolding bad_file is_bad
bad_file-append j [] es h = cc
bad_file-append j (m ∷ w) es h =
    any-append is_bad (m ∷ w) (member archive_version es ∷ []) ∙ rw h (ground arith)

append_to-fine :
    (n : Str) (es : List Activity) (disk : Archive)
    → any bad_file disk ≡ false
    → any bad_file (append_to n (member archive_version es ∷ []) disk) ≡ false
unfolding append_to bad_file is_bad
append_to-fine n es [] h = ground arith
append_to-fine n es ((j, w) ∷ disk) h = elim (Bool-cases (str_eq j n)) [
  | inl same ↦ let e = bad_file-append j w es (ground arith) in rw (same, e) (ground arith)
  | inr differ ↦ let e = append_to-fine n es disk (ground arith) in rw (differ, e) (ground arith)
]

append_to-holds :
    (p : Activity → Bool) (n : Str) (es : List Activity) (disk : Archive)
    → holds p (append_to n (member archive_version es ∷ []) disk) ≡ (holds p disk || any p es)
unfolding append_to holds file_holds member_holds
append_to-holds p n es [] = ground arith
append_to-holds p n es ((j, w) ∷ disk) = elim (Bool-cases (str_eq j n)) [
  | inl same ↦
      rw (same, any-append (member_holds p) w (member archive_version es ∷ [])) (ground arith)
  | inr differ ↦ rw differ (ground (arith, append_to-holds p n es disk))
]

-- The first error ends the loop: without an error the first file was written.
written_first :
    (o : Outcome) (n : Str) (es : List Activity) (disk : Archive)
    (k : Archive → Archive × Option Error)
    → (stop_at
        (write_member o n es disk).1
        (write_member o n es disk).0
        (k (write_member o n es disk).0)).1
      ≡ none
    → (o ≡ written) × ((k (append_to n (member archive_version es ∷ []) disk)).1 ≡ none)
unfolding write_member
written_first written n es disk k h = (refl, h)
written_first refused n es disk k h = cc
written_first unwritten n es disk k h = cc
written_first cut n es disk k h = cc
written_first unsynced n es disk k h = cc

write_files-keeps :
    (outcome : Str → Outcome) (entries : List Activity) (names : List Str) (disk : Archive)
    → any bad_file disk ≡ false
    → (write_files outcome entries names disk).1 ≡ none
    → (any bad_file (write_files outcome entries names disk).0 ≡ false)
      × ((p : Activity → Bool)
          → holds p (write_files outcome entries names disk).0
            ≡ (holds p disk || any (λ n. any p (entries_of n entries)) names))
unfolding write_files write_member
write_files-keeps outcome entries [] disk fine done = (fine, λ p. or_false (holds p disk))
  where
    or_false : (b : Bool) → b ≡ (b || false)
    or_false b = ground arith
write_files-keeps outcome entries (n ∷ names) disk fine done =
    let es = entries_of n entries in
    let (ok_e, rest) =
      written_first (outcome n) n es disk (write_files outcome entries names) done in
    let next = append_to n (member archive_version es ∷ []) disk in
    let (fine_after, held) =
      write_files-keeps outcome entries names next (append_to-fine n es disk fine) rest in
    rw ok_e (
      fine_after,
      λ p.
          held p
          ∙ rw (append_to-holds p n es disk)
              (or_assoc (holds p disk) (any p es) (any (λ n. any p (entries_of n entries)) names)),
    )
  where
    or_assoc : (a b c : Bool) → ((a || b) || c) ≡ (a || (b || c))
    or_assoc a b c = ground arith

-- A test that passes for the name of an entry passes for one of the names.
any-file_names :
    (q : Str → Bool) (seen : List Str) (es : List Activity)
    → (any q (file_names seen es) || any q seen)
      ≡ (any (λ e. q (archive_file_name e)) es || any q seen)
unfolding file_names
any-file_names q seen [] = refl
any-file_names q seen (e ∷ es) = elim (Bool-cases (any (str_eq (archive_file_name e)) seen)) [
  | inl old ↦
      let (x, same, found) = any-witness (str_eq (archive_file_name e)) seen old in
      let eq = (str_eq_iff (archive_file_name e) x).0 same in
      rw old (
        any-file_names q seen es
        ∙ absorb (q (archive_file_name e)) _ (any q seen) (λ h. found q (sym (ap q eq) ∙ h)))
  | inr new ↦ rw new (
      swap (q (archive_file_name e)) _ (any q seen) _
        (any-file_names q (archive_file_name e ∷ seen) es))
]
  where
    absorb : (a b c : Bool) → (a ≡ true → c ≡ true) → (b || c) ≡ ((a || b) || c)
    absorb true b c h = rw (h refl) (ground arith)
    absorb false b c h = refl

    swap : (a b c d : Bool) → (b || (a || c)) ≡ (d || (a || c)) → ((a || b) || c) ≡ ((a || d) || c)
    swap a b c d h = ground arith

-- The files hold all entries.
any-entries :
    (p : Activity → Bool) (entries : List Activity)
    → any (λ n. any p (entries_of n entries)) (sort_by str_lt (file_names [] entries))
      ≡ any p entries
unfolding entries_of
any-entries p entries =
    let q : Str → Bool = λ n. any p (entries_of n entries) in
    any-sort_by q str_lt (file_names [] entries)
    ∙ same_bool (any q (file_names [] entries)) (any p entries) (λ h. held_by_all h) (λ h. held h)
  where
    same_bool : (a b : Bool) → (a ≡ true → b ≡ true) → (b ≡ true → a ≡ true) → a ≡ b
    same_bool true b h k = sym (h refl)
    same_bool false true h k = k refl
    same_bool false false h k = refl

    all_names :
        (q : Str → Bool)
        → any q (file_names [] entries) ≡ any (λ e. q (archive_file_name e)) entries
    all_names q =
        drop_false (any q (file_names [] entries)) (any (λ e. q (archive_file_name e)) entries)
          (any-file_names q [] entries)
      where
        drop_false : (a b : Bool) → (a || false) ≡ (b || false) → a ≡ b
        drop_false a b h = ground arith

    held :
        any p entries ≡ true
        → any (λ n. any p (entries_of n entries)) (file_names [] entries) ≡ true
    held h =
        let (e, passes, found) = any-witness p entries h in
        all_names (λ n. any p (entries_of n entries))
        ∙ found (λ e. any p (entries_of (archive_file_name e) entries))
            (any-keep p (λ x. str_eq (archive_file_name x) (archive_file_name e)) entries
              ∙ found (λ x. str_eq (archive_file_name x) (archive_file_name e) && p x)
                  (rw (str_eq_refl (archive_file_name e), passes) refl))

    second : (a b : Bool) → (a && b) ≡ true → b ≡ true
    second a b h = ground arith

    held_by_all :
        any (λ n. any p (entries_of n entries)) (file_names [] entries) ≡ true
        → any p entries ≡ true
    held_by_all h =
        let (n, passes, found) =
          any-witness (λ n. any p (entries_of n entries)) (file_names [] entries) h in
        let (x, both, in_entries) =
          any-witness (λ x. str_eq (archive_file_name x) n && p x) entries
            (sym (any-keep p (λ x. str_eq (archive_file_name x) n) entries) ∙ passes) in
        in_entries p (second (str_eq (archive_file_name x) n) (p x) both)

-- What an append that succeeds makes of an archive that could be read: it can be read again, and has the ids that it
-- had and those of the entries, each once and in ascending order, and no entry but these.
pub record IsAppended (old entries new : List Activity) (before : Archive) : Type 0 where
  pub same_ids : (i : ℕ) → any (has_id i) new ≡ (any (has_id i) old || any (has_id i) entries)
  pub none_made_up :
      (p : Activity → Bool) → any p new ≡ true → (holds p before || any p entries) ≡ true
  pub increasing : IsIncreasing new

pub append_archive-keeps :
    (outcome : Str → Outcome) (entries : List Activity) (disk : Archive) (old : List Activity)
    → read_archive disk ≡ ok old
    → (append_archive true outcome entries disk).1 ≡ none
    → (new : List Activity) × (read_archive (append_archive true outcome entries disk).0 ≡ ok new)
      × IsAppended old entries new disk
unfolding append_archive
append_archive-keeps outcome entries disk old readable done =
    let (fine, ids) = read_archive-fine disk old readable in
    let names = sort_by str_lt (file_names [] entries) in
    let (fine_after, held) = write_files-keeps outcome entries names disk fine done in
    let (new, read, r) = read_fine (write_files outcome entries names disk).0 fine_after in
    (
      new,
      read,
      record {
        same_ids =
            λ i. r.same_ids i ∙ held (has_id i) ∙ rw (ids i, any-entries (has_id i) entries) refl;
        none_made_up = λ p h.
            sym (held p ∙ ap (λ b. holds p disk || b) (any-entries p entries)) ∙ r.none_made_up p h;
        increasing = r.increasing;
      },
    )
