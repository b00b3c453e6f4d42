-- ===== src/Board/Types.antt =====
-- board.go, types.go: errors, events, requests and the Board itself. An error is its sentinel,
-- without the text; `store_failed` is any other error, as the Store and the system report it.
use agentboard.Prelude.{ℕ, Bool, Option, List, Str, Table, ◌≡◌, refl, ◌⊎◌, inl, inr}
use agentboard.Model.Status.{Status}
use agentboard.Model.Priority.{Priority}
use agentboard.Model.Kind.{Kind}
use agentboard.Model.Data.{State, Time}

pub data Error : Type 0 where
  not_found invalid claimed not_owner exists bad_credentials corrupt locked store_failed : Error

pub data Result {ℓ} (A : Type ℓ) : Type ℓ where
  err : Error → Result A
  ok : A → Result A

-- `if err != nil { return …, err }`
infixl 5 ◌>>=◌ ◌>>◌
abbrev pub ◌>>=◌ {ℓ κ} : {A : Type ℓ} {B : Type κ} → Result A → (A → Result B) → Result B
err e >>= k = err e
ok a >>= k = k a

abbrev pub ◌>>◌ {ℓ} : {B : Type ℓ} → Result (Unit {0}) → Result B → Result B
m >> k = m >>= λ _. k

pub Result-cases {ℓ} :
    {A : Type ℓ} (r : Result A) → ((e : Error) × (r ≡ err e)) ⊎ ((a : A) × (r ≡ ok a))
Result-cases (ok a) = inr (a, refl)
Result-cases (err e) = inl (e, refl)

-- `if bad { return e }`
abbrev pub refuse_if : Bool → Error → Result (Unit {0})
refuse_if Bool.true e = err e
refuse_if Bool.false e = ok tt

-- What a Go method returns beside its state: a value (`none` for the zero value) and an error.
pub record Reply {ℓ} (A : Type ℓ) : Type ℓ where
  pub value : Option A
  pub error : Option Error

pub data EventType : Type 0 where
  task project agent sweep save shutdown user : EventType

pub record Event : Type 0 where
  pub type : EventType
  pub task_id : Str
  pub at : Time

pub data SaveMode : Type 0 where
  async sync : SaveMode

-- One subscriber: its id, and the events that its channel holds, oldest first.
pub record Subscriber : Type 0 where
  pub id : ℕ
  pub queue : List Event

-- `store` is what the Store holds, `kick` whether a wake-up of the writer is pending.
pub record Board : Type 0 where
  pub st : State
  pub store : State
  pub agent_ttl : ℕ
  pub lease : ℕ
  pub subs : List Subscriber
  pub next_sub : ℕ
  pub allowed_email_domains : List Str
  pub archive_dir : Str
  pub max_activity : ℕ
  pub mode : SaveMode
  pub kick : Bool
  pub closed : Bool
  pub dirty : Bool
  pub dirty_since : Time
  pub last_save : Time
  pub last_err : Option Error
  pub saves : ℕ
  pub failures : ℕ

-- The clock at a call, and what Store.Save answers if the call saves: `none` is success.
pub record Env : Type 0 where
  pub now : Time
  pub save_error : Option Error

pub record NewTask : Type 0 where
  pub project : Str
  pub kind : Kind
  pub parent : Str
  pub title : Str
  pub description : Str
  pub priority : Priority
  pub labels : List Str
  pub actor : Str

pub record Patch : Type 0 where
  pub title : Option Str
  pub description : Option Str
  pub status : Option Status
  pub priority : Option Priority
  pub parent : Option Str
  pub labels : Option (List Str)
  pub start_date : Option Str
  pub end_date : Option Str
  pub actor : Str

-- The filter's empty text is `none`.
pub record Filter : Type 0 where
  pub project : Str
  pub status : Option Status
  pub assignee : Str
  pub kind : Option Kind
  pub parent : Str

-- A nil map of the request is `none`.
pub record HeartbeatRequest : Type 0 where
  pub kind : Str
  pub task : Str
  pub meta : Option (Table Str)
