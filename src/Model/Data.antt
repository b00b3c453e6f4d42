-- ===== src/Model/Data.antt =====
-- model/model.go: the data types of the board. A time is its nanoseconds since year 1, so the zero
-- time is 0; a nil pointer is `none`; Go integers are unbounded.
use agentboard.Prelude.{ℕ, Bool, Option, List, [], Str, Table}
use agentboard.Prelude.Int.{ℤ, pos}
use agentboard.Model.Status.{Status}
use agentboard.Model.Priority.{Priority}
use agentboard.Model.Kind.{Kind}
use agentboard.Model.Date.{Date}

abbrev pub Time : Type 0
Time = ℕ

pub record Project : Type 0 where
  pub key : Str
  pub name : Str
  pub next_seq : ℕ
  pub created_at : Time

pub record Task : Type 0 where
  pub id : Str
  pub project : Str
  pub kind : Kind
  pub parent : Str
  pub title : Str
  pub description : Str
  pub status : Status
  pub priority : Priority
  pub labels : List Str
  pub assignee : Str
  pub lease_expires : Option Time
  pub lease_seconds : ℕ
  pub created_by : Str
  pub updated_by : Str
  pub created_at : Time
  pub updated_at : Time
  pub start_date : Option Date
  pub end_date : Option Date

pub record Agent : Type 0 where
  pub name : Str
  pub kind : Str
  pub last_heartbeat : Time
  pub current_task : Str
  pub meta : Table Str
  pub online : Bool

pub record Activity : Type 0 where
  pub id : ℕ
  pub time : Time
  pub actor : Str
  pub task_id : Str
  pub action : Str
  pub detail : Str

abbrev pub schema_version : ℕ
schema_version = 3

pub record User : Type 0 where
  pub email : Str
  pub password_hash : List ℕ
  pub salt : List ℕ
  pub iterations : ℕ
  pub created_at : Time
  pub updated_at : Time

pub record State : Type 0 where
  pub version : ℤ
  pub projects : Table Project
  pub tasks : Table Task
  pub agents : Table Agent
  pub users : Table User
  pub activity : List Activity
  pub next_activity_id : ℕ
  pub archived_through : ℕ

unfoldable pub new_state : State
new_state = record {
  version = pos schema_version;
  projects = [];
  tasks = [];
  agents = [];
  users = [];
  activity = [];
  next_activity_id = 0;
  archived_through = 0;
}
