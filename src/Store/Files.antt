-- ===== src/Store/Files.antt =====
-- store.go: FileStore and MemStore. A disk has the data file, its backup and the temporary file of the
-- save under way; other files in the directory play no part.
use agentboard.Prelude.{ℕ, not, ◌&&◌, Option, none, some, if◌then◌else◌, take}
use agentboard.Password.{Bytes}
use agentboard.Model.Data.{State, new_state}
use agentboard.Board.Types.{Result, ok, err, Error, store_failed}
use agentboard.Store.Format.{Codec, encode_file}
use agentboard.Store.Decode.{is_blank, decode_state, decode_file}

pub record Disk : Type 0 where
  pub main : Option Bytes
  pub bak : Option Bytes
  pub tmp : Option Bytes

-- The calls of saveLocked in their order; a write may stop after any number of bytes.
pub data SaveStage : Type 0 where
  makes_dir creates_temp : SaveStage
  writes : ℕ → SaveStage
  syncs closes hooks renames : SaveStage

-- The disk while saveLocked is in a stage: before the rename the data file is not touched.
unfoldable pub disk_at : SaveStage → Bytes → Disk → Disk
disk_at makes_dir b d = d
disk_at creates_temp b d = d
disk_at (writes n) b d = record d { tmp = some (take n b) }
disk_at syncs b d = record d { tmp = some b }
disk_at closes b d = record d { tmp = some b }
disk_at hooks b d = record d { tmp = some b }
disk_at renames b d = record d { tmp = some b }

-- The stage that fails, if any. The deferred os.Remove takes the temporary file away.
unfoldable pub save_locked : Codec → State → Option SaveStage → Disk → Disk × Option Error
unfolding disk_at
save_locked c st none d = (record d { main = some (encode_file c st); tmp = none }, none)
save_locked c st (some stage) d =
    (record (disk_at stage (encode_file c st) d) { tmp = none }, some store_failed)

-- What goes wrong while a legacy file is migrated: the backup cannot be created, its write stops
-- after some bytes, or the save fails.
pub data MigrateFault : Type 0 where
  opens_backup : MigrateFault
  writes_backup : ℕ → MigrateFault
  saves : SaveStage → MigrateFault

abbrev save_fault : Option MigrateFault → Option SaveStage
save_fault (some (saves stage)) = some stage
save_fault _ = none

-- O_EXCL: a backup that is there is never written again.
unfoldable pub keep_backup : Bytes → Option MigrateFault → Disk → Disk × Option Error
keep_backup old fault d = elim d.bak [
  | some kept ↦ (d, none)
  | none ↦ elim fault [
    | some opens_backup ↦ (d, some store_failed)
    | some (writes_backup n) ↦ (record d { bak = some (take n old) }, some store_failed)
    | some (saves stage) ↦ (record d { bak = some old }, none)
    | none ↦ (record d { bak = some old }, none)
  ]
]

unfoldable pub migrate_locked :
    Codec → Bytes → State → Option MigrateFault → Disk → Disk × Option Error
unfolding keep_backup save_locked
migrate_locked c old st fault d =
    let (d', e) = keep_backup old fault d in
    elim e [ some e' ↦ (d', some e') | none ↦ save_locked c st (save_fault fault) d' ]

abbrev loaded : State → Disk × Option Error → Disk × Result State
loaded st (d, none) = (d, ok st)
loaded st (d, some e) = (d, err e)

-- FileStore.Load, where reading the file works.
unfoldable pub load : Codec → Option MigrateFault → Disk → Disk × Result State
unfolding migrate_locked
load c fault d = elim d.main [
  | none ↦ (d, ok new_state)
  | some b ↦ elim (decode_file c b) [
    | err e ↦ (d, err e)
    | ok (st, legacy) ↦
        if legacy && not (is_blank b) then loaded st (migrate_locked c b st fault d) else (d, ok st)
  ]
]

unfoldable pub save : Codec → State → Option SaveStage → Disk → Disk × Option Error
unfolding save_locked
save c st fault d = save_locked c st fault d

-- MemStore keeps the bytes.
unfoldable mem_load : Codec → Bytes → Result State
unfolding decode_state
mem_load c b = decode_state c b

unfoldable mem_save : Codec → State → Bytes
mem_save c st = c.marshal st
