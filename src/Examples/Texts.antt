-- ===== src/Examples/Texts.antt =====
-- Ids, dates and passwords at concrete inputs.
use agentboard.Prelude.{true, some, none, [], ◌∷◌, runes, ◌≡◌, refl}
use agentboard.Prelude.Int.{pos}
use agentboard.Text.{key_re}
use agentboard.Text.TaskId.{task_id, split_id, split_id-task_id}
use agentboard.Model.Date
use agentboard.Model.Date.{Date}
use agentboard.Model.Priority.{high}
use agentboard.Model.Kind
use agentboard.Model.Status.{todo}
use agentboard.Model.Data.{Task}
use agentboard.Password.{
  hash_password, verify_password, pbkdf2_iterations, verify_password-hash_password,
}
use agentboard.Board.Update.{PatchInput}
use agentboard.Examples.Data.{toy_prf, toy_prf-sized}

ab_is_key : key_re (runes "AB") ≡ true
unfolding key_re
ab_is_key = refl

split_id-task_id_example : split_id (task_id (runes "AB") 12) ≡ (runes "AB", pos 12)
split_id-task_id_example = split_id-task_id (runes "AB") 12 ab_is_key

abbrev leap_day : Date
leap_day = record { year = 2024; month = 2; day = 29 }

leap_day-is_valid : Date.is_valid leap_day ≡ true
unfolding Date.is_valid Date.days_in
leap_day-is_valid = refl

leap_day_read : Date.parse_date (runes "2024-02-29") ≡ some leap_day
unfolding Date.parse_date Date.is_valid Date.days_in
leap_day_read = refl

-- A year without the 29th of February.
no_leap_day : Date.parse_date (runes "2023-02-29") ≡ none
unfolding Date.parse_date Date.is_valid Date.days_in
no_leap_day = refl

verify_password-hash_password_example :
    verify_password toy_prf
      (runes "correct horse")
      (hash_password toy_prf (runes "correct horse") (1 ∷ 2 ∷ []))
      (1 ∷ 2 ∷ [])
      pbkdf2_iterations
    ≡ true
verify_password-hash_password_example =
    verify_password-hash_password toy_prf toy_prf-sized (runes "correct horse") (1 ∷ 2 ∷ [])

abbrev a_task : Task
a_task = record {
  id = runes "AB-1";
  project = runes "AB";
  kind = Kind.task;
  parent = [];
  title = runes "Write";
  description = [];
  status = todo;
  priority = high;
  labels = [];
  assignee = [];
  lease_expires = none;
  lease_seconds = 0;
  created_by = runes "ann";
  updated_by = runes "ann";
  created_at = 20;
  updated_at = 20;
  start_date = none;
  end_date = none;
}

abbrev input : PatchInput
input = record { actor = runes "ann"; labels = none; start_date = none; end_date = none }
