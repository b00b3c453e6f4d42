-- ===== src/View/Labels.antt =====
-- internal/view/view.go: the texts about tasks, agents and times.
use Prim.Native.Nat.{bit_xor}
use agentboard.Prelude.{
  ℕ, ◌+◌, ◌-◌, ◌*◌, ◌/◌, ◌%◌, ◌^◌, min, Bool, true, false, not, ◌&&◌, ◌||◌, ◌≡◌, refl, Option, none,
  some, List, [], ◌∷◌, ◌++◌, map, ltb, leb, ◌==◌, if◌then◌else◌, is_empty, take, Str, runes, str_eq,
}
use agentboard.Prelude.Int.{ℤ, pos, negsuc}
use agentboard.Text.{is_lower}
use agentboard.Text.Decimal.{decimal}
use agentboard.Model.Data.{Time, Task, Agent, Activity}

-- `a.Sub(b)`: a time.Duration stops at its bounds.
unfoldable time_sub : Time → Time → ℤ
time_sub a b = if leb b a then pos (min (a - b) (2 ^ 63 - 1)) else negsuc (min (b - a) (2 ^ 63) - 1)

-- `-d` of a negative duration, which has none for the least.
unfoldable negated : ℕ → ℤ
negated n = if n + 1 == 2 ^ 63 then negsuc n else pos (n + 1)

abbrev second : ℕ
second = 1_000_000_000

unfoldable short : ℤ → Str
unfolding decimal
short (negsuc n) =
    (if ltb (n + 1) second then [] else runes "-") ++ decimal ((n + 1) / second) ++ runes "s"
short (pos d) =
    if ltb d (60 * second)
    then decimal (d / second) ++ runes "s"
    else if ltb d (3600 * second)
    then decimal (d / (60 * second)) ++ runes "m"
    else if ltb d (48 * 3600 * second)
    then decimal (d / (3600 * second)) ++ runes "h"
    else decimal (d / (24 * 3600 * second)) ++ runes "d"

unfoldable since : ℤ → Str
unfolding short negated
since (negsuc n) = runes "in " ++ short (negated n)
since (pos n) = if ltb n (10 * second) then runes "just now" else short (pos n) ++ runes " ago"

unfoldable rel_time : Time → Time → Str
unfolding time_sub since
rel_time now t = if t == 0 then [] else since (time_sub now t)

unfoldable lease_left : Time → Task → Str
unfolding time_sub short
lease_left now t = elim t.lease_expires [
  | none ↦ []
  | some until ↦ elim (time_sub until now) [
    | negsuc n ↦ runes "lease expired"
    | pos d ↦ if d == 0 then runes "lease expired" else short (pos d) ++ runes " left"
  ]
]

-- The first agent of the name.
unfoldable agent_named : List Agent → Str → Option Agent
agent_named [] name = none
agent_named (a ∷ agents) name = if str_eq a.name name then some a else agent_named agents name

unfoldable agent_online : List Agent → Str → Bool
unfolding agent_named
agent_online agents name = elim (agent_named agents name) [ none ↦ false | some a ↦ a.online ]

unfoldable agent_kind : List Agent → Str → Str
unfolding agent_named
agent_kind agents name = elim (agent_named agents name) [ none ↦ [] | some a ↦ a.kind ]

unfoldable task_title : List Task → Str → Str
task_title [] id = []
task_title (t ∷ tasks) id = if str_eq t.id id then t.title else task_title tasks id

-- `strings.ReplaceAll(s, "_", " ")`
abbrev spaced : Str → Str
spaced s = map (λ c. if c == b'_' then b' ' else c) s

unfoldable describe : Activity → Str
unfolding str_eq
describe a =
    let is : Str → Bool = str_eq a.action in
    if is (runes "created")
    then runes "created the task"
    else if is (runes "claimed")
    then runes "claimed the task (" ++ a.detail ++ runes ")"
    else if is (runes "lease_renewed")
    then runes "renewed the lease (" ++ a.detail ++ runes ")"
    else if is (runes "released")
    then runes "released the task"
    else if is (runes "lease_expired")
    then runes "lease expired, " ++ a.detail
    else if is (runes "status")
    then runes "moved " ++ spaced a.detail
    else if is (runes "updated")
    then runes "changed " ++ a.detail
    else if is (runes "done")
    then runes "completed the task"
    else if is (runes "comment")
    then runes "commented"
    else if is (runes "project_created")
    then runes "created project " ++ a.detail
    else if not (is_empty a.detail)
    then a.action ++ runes " " ++ a.detail
    else a.action

abbrev avatar_palette_size : ℕ
avatar_palette_size = 10

-- FNV-1a of hash/fnv, 32 bits, from `h` on.
unfoldable fnv : ℕ → List ℕ → ℕ
fnv h [] = h
fnv h (b ∷ bytes) = fnv (bit_xor h b * 16777619 % 2 ^ 32) bytes

-- Of the bytes of the kind.
unfoldable avatar_palette : List ℕ → ℕ
unfolding fnv
avatar_palette bytes = fnv 2166136261 bytes % avatar_palette_size

hash_a : fnv 2166136261 (97 ∷ []) ≡ 3826002220
unfolding fnv
hash_a = refl

abbrev is_separator : ℕ → Bool
is_separator c = (c == b'-') || (c == b'_') || (c == b'.') || (c == b' ')

-- The first rune of each part between separators; `start` is whether a part may start here.
unfoldable first_runes : Bool → Str → Str
first_runes start [] = []
first_runes start (c ∷ s) =
    let next = first_runes (is_separator c) s in
    if is_separator c then next else if start then c ∷ next else next

abbrev upper_rune : ℕ → ℕ
upper_rune c = if is_lower c then c - 32 else c

unfoldable initials : Str → Str
unfolding first_runes
initials name =
    let out = take 2 (first_runes true name) in
    if is_empty out then runes "?" else map upper_rune out

pub record ActorState : Type 0 where
  pub agent : Bool
  pub online : Bool
  pub task : Str
  pub kind : Str

unfoldable actor_of : List Agent → Str → ActorState
unfolding agent_named
actor_of agents name = elim (agent_named agents name) [
  | none ↦ record { agent = false; online = false; task = []; kind = [] }
  | some a ↦ record { agent = true; online = a.online; task = a.current_task; kind = a.kind }
]

unfoldable actor_text : ActorState → Str
actor_text s =
    if not s.agent
    then []
    else if s.online && not (is_empty s.task)
    then runes "working on " ++ s.task
    else if s.online
    then runes "online, idle"
    else runes "finished"
