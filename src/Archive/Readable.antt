-- ===== src/Archive/Readable.antt =====
-- archive.go: when ReadArchive succeeds, and what it then gives.
use agentboard.Prelude.{
  ℕ, ◌≡◌, refl, sym, ◌∙◌, Bool, true, false, List, [], ◌∷◌, ◌++◌, arith, ltb, if◌then◌else◌, any,
  any-append, any-sort_by, sort_by, Str,
}
use agentboard.Model.Data.{Activity}
use agentboard.Board.Types.{Error, Result, ok, err, ◌>>=◌}
use agentboard.Archive.{
  archive_version, Member, member, torn, Archive, read_members, read_file, read_files, unseen,
  by_id, by_name, read_archive,
}
use agentboard.Archive.Reads.{has_id, IsIncreasing, sorted-IsReadingOf}

unfoldable pub is_bad : Member → Bool
is_bad torn = true
is_bad (member v es) = ltb archive_version v

unfoldable pub bad_file : Str × List Member → Bool
unfolding is_bad
bad_file (n, []) = true
bad_file (n, m ∷ ms) = any is_bad (m ∷ ms)

-- Whether a member, a file or the archive holds an entry that passes.
unfoldable pub member_holds : (Activity → Bool) → Member → Bool
member_holds p torn = false
member_holds p (member v es) = any p es

unfoldable pub file_holds : (Activity → Bool) → Str × List Member → Bool
unfolding member_holds
file_holds p (n, ms) = any (member_holds p) ms

unfoldable pub holds : (Activity → Bool) → Archive → Bool
unfolding file_holds
holds p disk = any (file_holds p) disk

-- The reading has what is held, and nothing is bad.
record IsRead {ℓ} {A : Type ℓ} (bad : A → Bool) (held : (Activity → Bool) → A → Bool) (xs : List A)
    (es : List Activity) : Type ℓ where
  fine : any bad xs ≡ false
  same : (p : Activity → Bool) → any p es ≡ any (held p) xs

read_members-fine :
    (ms : List Member) → any is_bad ms ≡ false → (es : List Activity) × (read_members ms ≡ ok es)
unfolding is_bad read_members
read_members-fine [] h = ([], refl)
read_members-fine (torn ∷ ms) h = cc
read_members-fine (member v es ∷ ms) h =
    let (rest, e) = read_members-fine ms (ground arith) in
    let current : ltb archive_version v ≡ false = ground arith in (es ++ rest, rw (current, e) refl)

guarded :
    (e : Error) (t : Bool) (r : Result (List Activity)) (es : List Activity)
    → (if t then err e else r) ≡ ok es
    → (t ≡ false) × (r ≡ ok es)
guarded e true r es h = cc
guarded e false r es h = (refl, h)

-- Two readings in a row, and what they gave.
in_a_row :
    (r s : Result (List Activity)) (es : List Activity)
    → (r >>= λ xs. (s >>= λ rest. ok (xs ++ rest))) ≡ ok es
    → (xs : List Activity) × (rest : List Activity) × (r ≡ ok xs)
      × (s ≡ ok rest)
      × (ok (xs ++ rest) ≡ ok es)
in_a_row (err e) s es h = cc
in_a_row (ok xs) (err e) es h = cc
in_a_row (ok xs) (ok rest) es h = (xs, rest, refl, refl, h)

ok_held : (p : Activity → Bool) (xs es : List Activity) → ok xs ≡ ok es → any p es ≡ any p xs
ok_held p xs es h = cc

read_members-IsRead :
    (ms : List Member) (es : List Activity)
    → read_members ms ≡ ok es
    → IsRead is_bad member_holds ms es
unfolding is_bad member_holds read_members
read_members-IsRead [] es h = record { fine = refl; same = λ p. ok_held p [] es h }
read_members-IsRead (torn ∷ ms) es h = cc
read_members-IsRead (member v xs ∷ ms) es h =
    let (current, both) =
      guarded Error.invalid (ltb archive_version v) (read_members ms >>= λ rest. ok (xs ++ rest)) es
        h in
    let (ys, rest, here, read, e) = in_a_row (ok xs) (read_members ms) es both in
    let ih = read_members-IsRead ms rest read in
    record {
      fine = rw (current, ih.fine) refl;
      same = λ p.
          ok_held p (ys ++ rest) es e
          ∙ any-append p ys rest
          ∙ rw (ok_held p ys xs (sym here), ih.same p) refl;
    }

read_file-fine :
    (n : Str) (ms : List Member)
    → bad_file (n, ms) ≡ false
    → (es : List Activity) × (read_file ms ≡ ok es)
unfolding bad_file read_file
read_file-fine n [] h = cc
read_file-fine n (m ∷ ms) h = read_members-fine (m ∷ ms) h

read_file-IsRead :
    (n : Str) (ms : List Member) (es : List Activity)
    → read_file ms ≡ ok es
    → (bad_file (n, ms) ≡ false) × ((p : Activity → Bool) → any p es ≡ file_holds p (n, ms))
unfolding bad_file file_holds read_file
read_file-IsRead n [] es h = cc
read_file-IsRead n (m ∷ ms) es h = let r = read_members-IsRead (m ∷ ms) es h in (r.fine, r.same)

read_files-fine :
    (files : Archive)
    → any bad_file files ≡ false
    → (es : List Activity) × (read_files files ≡ ok es)
unfolding read_files
read_files-fine [] h = ([], refl)
read_files-fine ((n, ms) ∷ files) h =
    let (xs, e) = read_file-fine n ms (ground arith) in
    let (rest, r) = read_files-fine files (ground arith) in (xs ++ rest, rw (e, r) refl)

read_files-IsRead :
    (files : Archive) (es : List Activity)
    → read_files files ≡ ok es
    → IsRead bad_file file_holds files es
unfolding read_files
read_files-IsRead [] es h = record { fine = refl; same = λ p. ok_held p [] es h }
read_files-IsRead ((n, ms) ∷ files) es h =
    let (xs, rest, here, read, e) = in_a_row (read_file ms) (read_files files) es h in
    let (fine, same) = read_file-IsRead n ms xs here in
    let ih = read_files-IsRead files rest read in
    record {
      fine = rw (fine, ih.fine) refl;
      same = λ p. ok_held p (xs ++ rest) es e ∙ any-append p xs rest ∙ rw (same p, ih.same p) refl;
    }

sorted_reading :
    (r : Result (List Activity)) (out : List Activity)
    → (r >>= λ es. ok (sort_by by_id (unseen [] es))) ≡ ok out
    → (es : List Activity) × (r ≡ ok es) × (ok (sort_by by_id (unseen [] es)) ≡ ok out)
sorted_reading (err e) out h = cc
sorted_reading (ok es) out h = (es, refl, h)

-- A reading of the archive: no file is bad, and the ids are those held.
pub read_archive-fine :
    (disk : Archive) (out : List Activity)
    → read_archive disk ≡ ok out
    → (any bad_file disk ≡ false) × ((i : ℕ) → any (has_id i) out ≡ holds (has_id i) disk)
unfolding read_archive holds
read_archive-fine disk out h =
    let (es, read, e) = sorted_reading (read_files (sort_by by_name disk)) out h in
    let r = read_files-IsRead (sort_by by_name disk) es read in
    (
      sym (any-sort_by bad_file by_name disk) ∙ r.fine,
      λ i.
          ok_held (has_id i) (sort_by by_id (unseen [] es)) out e
          ∙ (sorted-IsReadingOf es).same_ids i
          ∙ r.same (has_id i)
          ∙ any-sort_by (file_holds (has_id i)) by_name disk,
    )

-- Without a bad file the archive is read, and what is read is what is held.
pub record IsReadingOfArchive (disk : Archive) (out : List Activity) : Type 0 where
  pub same_ids : (i : ℕ) → any (has_id i) out ≡ holds (has_id i) disk
  pub none_made_up : (p : Activity → Bool) → any p out ≡ true → holds p disk ≡ true
  pub increasing : IsIncreasing out

pub read_fine :
    (disk : Archive)
    → any bad_file disk ≡ false
    → (out : List Activity) × (read_archive disk ≡ ok out) × IsReadingOfArchive disk out
unfolding read_archive holds
read_fine disk fine =
    let (es, read) =
      read_files-fine (sort_by by_name disk) (any-sort_by bad_file by_name disk ∙ fine) in
    let r = read_files-IsRead (sort_by by_name disk) es read in
    let s = sorted-IsReadingOf es in
    (
      sort_by by_id (unseen [] es),
      rw read refl,
      record {
        same_ids = λ i.
            s.same_ids i ∙ r.same (has_id i) ∙ any-sort_by (file_holds (has_id i)) by_name disk;
        none_made_up =
            λ p h. sym (r.same p ∙ any-sort_by (file_holds p) by_name disk) ∙ s.none_made_up p h;
        increasing = s.increasing;
      },
    )
