-- ===== src/Examples/Files.antt =====
-- Data files, written with a codec whose checksum is the sum of the bytes.
use agentboard.Prelude.{
  ℕ, ◌+◌, ◌%◌, ◌<◌, ◌≡◌, refl, true, false, Option, none, some, [], ◌∷◌, take, length, arith,
  str_eq,
}
use agentboard.Prelude.Int.{pos}
use agentboard.Password.{Bytes}
use agentboard.Model.Data.{State}
use agentboard.Board.Types.{ok, err, corrupt, store_failed}
use agentboard.Board.Calls.{run}
use agentboard.Board.Consistency.Calls.{new_state-IsConsistent}
use agentboard.Store.Validate.{
  validate_state, check_tasks, check_parents, check_projects, check_agents, check_users,
  check_activity, migrate,
}
use agentboard.Text.{has_prefix}
use agentboard.Store.Format.{Codec, put_be, be_bound, versioned, framed, payload_of, encode_file}
use agentboard.Store.Decode.{is_blank, decode_file, decode_state, looks_like_board, upgraded}
use agentboard.Store.Files.{Disk, writes, disk_at, save_locked, save, load, writes_backup}
use agentboard.Store.RoundTrip.{IsCodecFor, written_keys, raw_frame, decode_file-encode_file}
use agentboard.Store.Damage.{truncated_is_corrupt, changed_is_corrupt}
use agentboard.Store.Crash.{
  IsStorable, save_is_atomic, load_migrates, partial_backup_stays, saved_board_loads,
}
use agentboard.Examples.Data.{fresh_board, toy_prf, toy_prf-sized, any_address, history}

-- States that differ in a counter.
abbrev counted : ℕ → State
counted n = record {
  version = pos 3;
  projects = [];
  tasks = [];
  agents = [];
  users = [];
  activity = [];
  next_activity_id = n;
  archived_through = 0;
}

abbrev byte_sum : Bytes → ℕ
byte_sum [] = 0
byte_sum (b ∷ bs) = b + byte_sum bs

-- The text of a state is its counter, and reads as what `read` makes of it.
abbrev codec : (ℕ → State) → Codec
codec read = record {
  marshal = λ st. b'{' ∷ st.next_activity_id ∷ [];
  unmarshal = λ bs. unmarshal_counter read bs;
  top_keys = λ bs. some (written_keys (read 0));
  deflate = λ bs. bs;
  inflate = λ n bs. some (take n bs);
  crc = λ bs. byte_sum bs % be_bound 4;
}
  where
    unmarshal_counter : (ℕ → State) → Bytes → Option State
    unmarshal_counter read (b ∷ n ∷ []) = some (read n)
    unmarshal_counter read _ = none

small : (bs : Bytes) → byte_sum bs % be_bound 4 < be_bound 4
small bs = omega arith

counted-IsCodecFor : (n : ℕ) → IsCodecFor (codec counted) (counted n)
counted-IsCodecFor n = record {
  unmarshal-marshal = refl;
  top_keys-marshal = refl;
  rest = n ∷ [];
  marshal_object = refl;
  inflate-deflate = λ k bs. refl;
  crc_32 = small;
}

counted_valid : (n : ℕ) → validate_state (versioned (counted n)) ≡ ok tt
unfolding validate_state check_tasks check_parents check_projects check_agents check_users
    check_activity
counted_valid n = ground arith

decode_file-encode_file_example :
    decode_file (codec counted) (encode_file (codec counted) (counted 7))
    ≡ ok (versioned (counted 7), false)
decode_file-encode_file_example =
    decode_file-encode_file (codec counted) (counted 7) (counted-IsCodecFor 7) (counted_valid 7)
      (unfold payload_of in omega arith) (omega arith)

truncated_is_corrupt_example :
    decode_file (codec counted) (take 9 (encode_file (codec counted) (counted 7))) ≡ err corrupt
truncated_is_corrupt_example =
    truncated_is_corrupt (codec counted) (counted 7) 9 (unfold payload_of in omega arith)
      (omega arith) (unfold encode_file framed put_be payload_of in omega arith)

-- The counter's byte changed from 7 to 8.
changed_is_corrupt_example :
    decode_file (codec counted) (
      raw_frame
        (length (payload_of (codec counted) (counted 7)))
        (b'{' ∷ 8 ∷ [])
        ((codec counted).crc (payload_of (codec counted) (counted 7))))
    ≡ err corrupt
changed_is_corrupt_example =
    changed_is_corrupt (codec counted) (counted 7) (b'{' ∷ 8 ∷ [])
      (unfold payload_of in omega arith) (unfold payload_of in omega arith)
      (unfold payload_of in refl) (unfold payload_of in λ e. omega arith)

counted-IsStorable : (n : ℕ) → IsStorable (codec counted) (counted n)
counted-IsStorable n = record {
  laws = counted-IsCodecFor n;
  valid = counted_valid n;
  fits = unfold payload_of in omega arith;
  short = omega arith;
}

abbrev disk : Disk
disk = record { main = some (encode_file (codec counted) (counted 7)); bak = none; tmp = none }

save_is_atomic_example :
    ((load (codec counted) none (save_locked (codec counted) (counted 8) none disk).0).1
      ≡ ok (versioned (counted 8)))
    × ((load
          (codec counted)
          none
          (save_locked (codec counted) (counted 8) (some (writes 3)) disk).0).1
        ≡ ok (versioned (counted 7)))
    × ((save_locked (codec counted) (counted 8) (some (writes 3)) disk).1 ≡ some store_failed)
    × ((load
          (codec counted)
          none
          (disk_at (writes 3) (encode_file (codec counted) (counted 8)) disk)).1
        ≡ ok (versioned (counted 7)))
save_is_atomic_example =
    save_is_atomic (codec counted) (counted 7) (counted 8) (writes 3) none disk
      (counted-IsStorable 7) (counted-IsStorable 8) refl

-- A legacy file is the JSON itself.
abbrev legacy : Bytes
legacy = b'{' ∷ 7 ∷ []

legacy_read : decode_file (codec counted) legacy ≡ ok (counted 7, true)
unfolding decode_file decode_state validate_state is_blank looks_like_board upgraded has_prefix
    str_eq migrate check_tasks check_parents check_projects check_agents check_users check_activity
legacy_read = refl

legacy_full : is_blank legacy ≡ false
unfolding is_blank
legacy_full = refl

abbrev legacy_disk : Disk
legacy_disk = record { main = some legacy; bak = none; tmp = none }

partial_backup_stays_example :
    let d = (load (codec counted) (some (writes_backup 1)) legacy_disk).0 in
    ((load (codec counted) (some (writes_backup 1)) legacy_disk).1 ≡ err store_failed)
    × (d.main ≡ some legacy)
    × ((load (codec counted) none d).1 ≡ ok (counted 7))
    × ((load (codec counted) none d).0.main ≡ some (encode_file (codec counted) (counted 7)))
    × ((load (codec counted) none d).0.bak ≡ some (take 1 legacy))
partial_backup_stays_example =
    partial_backup_stays (codec counted) (counted 7) legacy 1 legacy_disk refl refl legacy_read
      legacy_full

-- A board after a history, and a codec that reads its state.
abbrev final : State
final = (run toy_prf any_address history fresh_board).st

final-IsCodecFor : IsCodecFor (codec (λ n. versioned final)) (versioned final)
final-IsCodecFor = record {
  unmarshal-marshal = refl;
  top_keys-marshal = refl;
  rest = final.next_activity_id ∷ [];
  marshal_object = refl;
  inflate-deflate = λ k bs. refl;
  crc_32 = small;
}

saved_board_loads_example :
    (load
      (codec (λ n. versioned final))
      none
      (save (codec (λ n. versioned final)) final none disk).0).1
    ≡ ok (versioned final)
saved_board_loads_example =
    saved_board_loads toy_prf toy_prf-sized any_address history fresh_board
      (codec (λ n. versioned final)) none disk (tt, (tt, (tt, (tt, tt)))) new_state-IsConsistent
      final-IsCodecFor (unfold payload_of in omega arith) (omega arith)

load_migrates_example :
    let d = (load (codec counted) none legacy_disk).0 in
    ((load (codec counted) none legacy_disk).1 ≡ ok (counted 7))
    × (d.main ≡ some (encode_file (codec counted) (counted 7)))
    × (d.bak ≡ some legacy)
    × (load (codec counted) none d ≡ (d, ok (versioned (counted 7))))
load_migrates_example =
    load_migrates (codec counted) (counted 7) legacy none legacy_disk (counted-IsStorable 7) refl
      legacy_read legacy_full
