-- ===== src/Store/Crash.antt =====
-- store.go: what FileStore.Load finds after saves, crashes and migrations.
use agentboard.Prelude.{
  ℕ, ◌≤◌, ◌<◌, ◌≡◌, refl, ap, ◌∙◌, true, false, Option, none, some, List, arith, length, take, Str,
}
use agentboard.Password.{Bytes, hash_size}
use agentboard.Model.Data.{State}
use agentboard.Board.Types.{ok, err, store_failed, Board, Env}
use agentboard.Board.Calls.{Call, run, HaveSalts}
use agentboard.Board.Consistency.Rules.{IsConsistent}
use agentboard.Store.Validate.{validate_state}
use agentboard.Store.Accepts.{run-validate_state}
use agentboard.Store.Format.{Codec, be_bound, max_decompressed, versioned, payload_of, encode_file}
use agentboard.Store.Decode.{is_blank, decode_file}
use agentboard.Store.RoundTrip.{IsCodecFor, decode_file-encode_file}
use agentboard.Store.Files.{
  Disk, SaveStage, makes_dir, creates_temp, writes, syncs, closes, hooks, renames, disk_at,
  save_locked, MigrateFault, writes_backup, keep_backup, migrate_locked, load, save,
}

-- A state that a file can hold: it passes ValidateState, and neither its JSON nor its payload is too
-- long.
pub record IsStorable (c : Codec) (st : State) : Type 0 where
  pub laws : IsCodecFor c (versioned st)
  pub valid : validate_state (versioned st) ≡ ok tt
  pub fits : length (payload_of c st) < be_bound 8
  pub short : length (c.marshal (versioned st)) ≤ max_decompressed

-- The file that a save leaves is loaded as the state, and loading leaves the disk alone.
load-encode_file :
    (c : Codec) (st : State) (fault : Option MigrateFault) (d : Disk)
    → IsStorable c st
    → d.main ≡ some (encode_file c st)
    → load c fault d ≡ (d, ok (versioned st))
unfolding load
load-encode_file c st fault d v found =
    let read = decode_file-encode_file c st v.laws v.valid v.fits v.short in ground arith

disk_at-main : (stage : SaveStage) (b : Bytes) (d : Disk) → (disk_at stage b d).main ≡ d.main
unfolding disk_at
disk_at-main makes_dir b d = refl
disk_at-main creates_temp b d = refl
disk_at-main (writes n) b d = refl
disk_at-main syncs b d = refl
disk_at-main closes b d = refl
disk_at-main hooks b d = refl
disk_at-main renames b d = refl

-- A save is all or nothing: where the file holds one state and another is saved, the next load gives
-- the new state if the save succeeds, and the old one if any of its calls fails or the process dies
-- in any stage of it.
pub save_is_atomic :
    (c : Codec) (old new : State) (stage : SaveStage) (fault : Option MigrateFault) (d : Disk)
    → IsStorable c old
    → IsStorable c new
    → d.main ≡ some (encode_file c old)
    → ((load c fault (save_locked c new none d).0).1 ≡ ok (versioned new))
      × ((load c fault (save_locked c new (some stage) d).0).1 ≡ ok (versioned old))
      × ((save_locked c new (some stage) d).1 ≡ some store_failed)
      × ((load c fault (disk_at stage (encode_file c new) d)).1 ≡ ok (versioned old))
unfolding save_locked
save_is_atomic c old new stage fault d v w found =
    let kept = disk_at-main stage (encode_file c new) d ∙ found in
    (
      ap (λ r. r.1) (load-encode_file c new fault _ w refl),
      ap (λ r. r.1) (load-encode_file c old fault _ v kept),
      refl,
      ap (λ r. r.1) (load-encode_file c old fault _ v kept),
    )

-- The backup after a migration: an older one stays.
abbrev pub backup : Option Bytes → Bytes → Bytes
backup none old = old
backup (some kept) old = kept

load-legacy :
    (c : Codec) (st : State) (old : Bytes) (d : Disk)
    → d.main ≡ some old
    → decode_file c old ≡ ok (st, true)
    → is_blank old ≡ false
    → load c none d ≡ (
      record { main = some (encode_file c st); bak = some (backup d.bak old); tmp = none },
      ok st,
    )
unfolding load migrate_locked keep_backup save_locked
load-legacy c st old d found legacy full = ground arith

-- A legacy file that is loaded without a fault becomes one of the current format with the same state,
-- its bytes are kept as the backup unless there is one already, and the next load gives the state
-- again, with the current version, and changes nothing more.
pub load_migrates :
    (c : Codec) (st : State) (old : Bytes) (fault : Option MigrateFault) (d : Disk)
    → IsStorable c st
    → d.main ≡ some old
    → decode_file c old ≡ ok (st, true)
    → is_blank old ≡ false
    → let d' = (load c none d).0 in
      ((load c none d).1 ≡ ok st)
      × (d'.main ≡ some (encode_file c st))
      × (d'.bak ≡ some (backup d.bak old))
      × (load c fault d' ≡ (d', ok (versioned st)))
load_migrates c st old fault d v found legacy full =
    rw (load-legacy c st old d found legacy full)
      (refl, refl, refl, load-encode_file c st fault _ v refl)

load-partial :
    (c : Codec) (st : State) (old : Bytes) (n : ℕ) (d : Disk)
    → d.main ≡ some old
    → d.bak ≡ none
    → decode_file c old ≡ ok (st, true)
    → is_blank old ≡ false
    → load c (some (writes_backup n)) d ≡ (record d { bak = some (take n old) }, err store_failed)
unfolding load migrate_locked keep_backup
load-partial c st old n d found nothing legacy full = ground arith

-- ValidateState does not look at the version.
validate_state-versioned :
    (st : State) → validate_state st ≡ ok tt → validate_state (versioned st) ≡ ok tt
unfolding validate_state
validate_state-versioned st h = h

-- Where there is no backup yet and its write stops after some bytes, the load fails and leaves what
-- was written; the next load takes that for the backup, and replaces the legacy file.
pub partial_backup_stays :
    (c : Codec) (st : State) (old : Bytes) (n : ℕ) (d : Disk)
    → d.main ≡ some old
    → d.bak ≡ none
    → decode_file c old ≡ ok (st, true)
    → is_blank old ≡ false
    → let d' = (load c (some (writes_backup n)) d).0 in
      ((load c (some (writes_backup n)) d).1 ≡ err store_failed)
      × (d'.main ≡ some old)
      × ((load c none d').1 ≡ ok st)
      × ((load c none d').0.main ≡ some (encode_file c st))
      × ((load c none d').0.bak ≡ some (take n old))
partial_backup_stays c st old n d found nothing legacy full =
    rw (load-partial c st old n d found nothing legacy full) (
      rw (load-legacy c st old (record d { bak = some (take n old) }) found legacy full)
        (refl, found, refl, refl, refl))

module _ (prf : Str → Bytes → Bytes)
    (sized : (key : Str) (msg : Bytes) → length (prf key msg) ≡ hash_size)
    (parse_address : Str → Option Str) where
  -- The board comes back: a state that any history of calls leads to, from a consistent one, and that
  -- is then saved without a fault, is what the next load gives, with the current version. The salts
  -- of new hashes are not empty, HMAC-SHA256 has 32 bytes, the codec does what it says for the state,
  -- and its JSON and payload are not too long.
  pub saved_board_loads :
      (calls : List (Env × Call)) (b : Board) (c : Codec) (fault : Option MigrateFault) (d : Disk)
      → HaveSalts calls
      → IsConsistent b.st
      → IsCodecFor c (versioned (run prf parse_address calls b).st)
      → length (payload_of c (run prf parse_address calls b).st) < be_bound 8
      → length (c.marshal (versioned (run prf parse_address calls b).st)) ≤ max_decompressed
      → (load c fault (save c (run prf parse_address calls b).st none d).0).1
        ≡ ok (versioned (run prf parse_address calls b).st)
  unfolding save save_locked
  saved_board_loads calls b c fault d s consistent laws fits short =
      let st = (run prf parse_address calls b).st in
      let valid =
        validate_state-versioned st
          (run-validate_state prf sized parse_address calls b s consistent) in
      let v : IsStorable c st = record { laws = laws; valid = valid; fits = fits; short = short } in
      ap (λ r. r.1) (load-encode_file c st fault _ v refl)
