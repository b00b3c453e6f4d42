-- ===== src/Board/Open.antt =====
-- board.go: Options and Open. `loaded` is what Store.Load answers; the timers' settings are left out.
use agentboard.Prelude.{ℕ, false, none, List, [], ◌∷◌, if◌then◌else◌, is_empty, Str, runes, str_eq}
use agentboard.Prelude.Int.{ℤ, pos, pos_part, ltb_ℤ}
use agentboard.Text.{trim_space, to_lower}
use agentboard.Model.Data.{State}
use agentboard.Board.Types.{Result, ok, err, ◌>>=◌, invalid, SaveMode, async, sync, Board}
use agentboard.Board.Inputs.{default_agent_ttl, default_lease}

pub record Options : Type 0 where
  pub agent_ttl : ℤ
  pub lease : ℤ
  pub save_mode : Str
  pub archive_dir : Str
  pub max_activity : ℤ
  pub allowed_email_domains : List Str

-- `if v <= 0 { v = default }`
abbrev positive_or : ℕ → ℤ → ℕ
positive_or default v = if ltb_ℤ (pos 0) v then pos_part v else default

unfoldable pub save_mode_of : Str → Result SaveMode
save_mode_of s =
    if is_empty s
    then ok async
    else if str_eq s (runes "async")
    then ok async
    else if str_eq s (runes "sync")
    then ok sync
    else err invalid

unfoldable pub clean_domains : List Str → List Str
clean_domains [] = []
clean_domains (d ∷ ds) =
    let rest = clean_domains ds in
    let d' = to_lower (trim_space d) in if is_empty d' then rest else d' ∷ rest

unfoldable pub open_board : Options → Result State → Result Board
unfolding save_mode_of clean_domains
open_board o loaded = do
  mode ← save_mode_of o.save_mode
  st ← loaded
  ok (record {
    st = st;
    store = st;
    agent_ttl = positive_or default_agent_ttl o.agent_ttl;
    lease = positive_or default_lease o.lease;
    subs = [];
    next_sub = 0;
    allowed_email_domains = clean_domains o.allowed_email_domains;
    archive_dir = o.archive_dir;
    max_activity = positive_or 5000 o.max_activity;
    mode = mode;
    kick = false;
    closed = false;
    dirty = false;
    dirty_since = 0;
    last_save = 0;
    last_err = none;
    saves = 0;
    failures = 0;
  })
