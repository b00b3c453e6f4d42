-- ===== src/Board/Consistency/Accounts.antt =====
-- Register and Authenticate keep a state consistent.
use agentboard.Prelude.{
  ◌<◌, ◌≡◌, refl, ap, subst, ◌≢◌, inl, inr, Option, none, some, [], ◌∷◌, arith, runes, Str,
  Option-cases, lookup, insert-Distinct, length,
}
use mathlib.Core.Path.{subst₂}
use agentboard.Text.{to_lower, trim_space}
use agentboard.Password
use agentboard.Password.{Bytes, hash_size, pbkdf2_iterations, key_len}
use agentboard.Model.Data.{User, State}
use agentboard.Board.Types.{ok, Env, Board}
use agentboard.Board.Inputs.{system_actor}
use agentboard.Board.Leases.{sweep_locked}
use agentboard.Board.Accounts.{
  Credential, put_user, new_user, upgraded, register_action, rehash_action, register, rehash,
  authenticate, check_account, normalize_email, credential,
}
use agentboard.Board.Consistency.Rules.{IsUser, IsConsistent}
use agentboard.Board.Consistency.Parts.{
  log-IsConsistent, lookup-insert_cases, sweep_locked-IsConsistent,
}
use agentboard.Board.Consistency.Keeps.{
  KeepsConsistent, on_ok-IsConsistent, checked-IsConsistent, do_locked-IsConsistent,
}

pub record IsCredential (cred : Credential) : Type 0 where
  pub hash_set : cred.hash ≢ []
  pub salt_set : cred.salt ≢ []
  pub iterations_set : 0 < cred.iterations

put_user-IsConsistent :
    (email : Str) (u : User) (st : State)
    → IsUser email u
    → IsConsistent st
    → IsConsistent (put_user email u st)
unfolding put_user
put_user-IsConsistent email u st v c = record {
  projects_distinct = c.projects_distinct;
  tasks_distinct = c.tasks_distinct;
  agents_distinct = c.agents_distinct;
  users_distinct = insert-Distinct email u st.users c.users_distinct;
  task_ok = c.task_ok;
  project_ok = c.project_ok;
  agent_ok = c.agent_ok;
  user_ok = λ k w h. elim (lookup-insert_cases email k u w st.users h) [
    | inl (p, q) ↦ subst₂ IsUser p q v
    | inr old ↦ c.user_ok k w old
  ];
  activity_rising = c.activity_rising;
}

pub register_action-KeepsConsistent :
    (email : Str) (cred : Credential)
    → to_lower email ≡ email
    → IsCredential cred
    → KeepsConsistent (register_action email cred)
unfolding register_action
register_action-KeepsConsistent email cred lower v now st c = on_ok-IsConsistent st _ _ c λ _ h.
    log-IsConsistent now system_actor [] (runes "user_registered") email _ (
      put_user-IsConsistent email (new_user email cred now) st
        (record {
          email_eq = refl;
          email_lower = lower;
          hash_set = v.hash_set;
          salt_set = v.salt_set;
          iterations_set = v.iterations_set;
        })
        c)

rehash_action-KeepsConsistent :
    (email : Str) (cred : Credential)
    → IsCredential cred
    → KeepsConsistent (rehash_action email cred)
unfolding rehash_action
rehash_action-KeepsConsistent email cred v now st c = elim (Option-cases (lookup email st.users)) [
  | inl e ↦ rw (e, rehash_action) c
  | inr (u, e) ↦
      let w = c.user_ok email u e in
      rw (e, rehash_action)
        (log-IsConsistent now _ _ _ _ _ (
          put_user-IsConsistent email (upgraded cred now u) st
            (record {
              email_eq = w.email_eq;
              email_lower = w.email_lower;
              hash_set = v.hash_set;
              salt_set = v.salt_set;
              iterations_set = v.iterations_set;
            })
            c))
]

to_lower_idem : (s : Str) → to_lower (to_lower s) ≡ to_lower s
unfolding to_lower
to_lower_idem [] = refl
to_lower_idem (c ∷ s) = ground (arith, to_lower_idem s)

check_account_lem :
    (prf : Str → Bytes → Bytes) (parse_address : Str → Option Str) (raw password : Str)
    (salt : Option Bytes) (b : Board) (i : Str × Credential)
    → check_account prf parse_address raw password salt b ≡ ok i
    → (i.0 ≡ normalize_email raw) × (credential prf password salt ≡ ok i.1)
unfolding check_account
check_account_lem prf parse_address raw password salt b i h = ground arith

normalize_email-lower : (raw : Str) → to_lower (normalize_email raw) ≡ normalize_email raw
unfolding normalize_email
normalize_email-lower raw = to_lower_idem (trim_space raw)

module _ (prf : Str → Bytes → Bytes)
    (sized : (key : Str) (msg : Bytes) → length (prf key msg) ≡ hash_size) where
  hash_password-ne-nil :
      (password : Str) (salt : Bytes) → Password.hash_password prf password salt ≢ []
  unfolding Password.hash_password
  hash_password-ne-nil password salt e = omega (
    arith,
    Password.length-pbkdf2_sha256 prf sized password salt pbkdf2_iterations key_len,
    ap length e,
  )

  credential-IsCredential :
      (password : Str) (salt : Option Bytes) (cred : Credential)
      → salt ≢ some []
      → credential prf password salt ≡ ok cred
      → IsCredential cred
  credential-IsCredential password none cred n h = cc
  credential-IsCredential password (some salt) cred n h = subst IsCredential made (record {
    hash_set = hash_password-ne-nil password salt;
    salt_set = λ e. n (ap some e);
    iterations_set = omega arith;
  })
    where
      made :
          record {
            hash = Password.hash_password prf password salt;
            salt = salt;
            iterations = pbkdf2_iterations;
          }
          ≡ cred
      made = cc

  pub register-IsConsistent :
      (parse_address : Str → Option Str) (raw password : Str) (salt : Option Bytes) (env : Env)
      (b : Board)
      → salt ≢ some []
      → IsConsistent b.st
      → IsConsistent (register prf parse_address raw password salt env b).0.st
  unfolding register
  register-IsConsistent parse_address raw password salt env b n c =
      checked-IsConsistent (check_account prf parse_address raw password salt b)
        (λ i. register_action i.0 i.1) env b
        (λ i h.
          let (e, made) = check_account_lem prf parse_address raw password salt b i h in
          register_action-KeepsConsistent i.0 i.1 (rw e (normalize_email-lower raw))
            (credential-IsCredential password salt i.1 n made))
        c

  rehash-IsConsistent :
      (email password : Str) (salt : Option Bytes) (env : Env) (b : Board)
      → salt ≢ some []
      → IsConsistent b.st
      → IsConsistent (rehash prf email password salt env b).st
  unfolding rehash
  rehash-IsConsistent email password none env b n c = c
  rehash-IsConsistent email password (some salt) env b n c =
      do_locked-IsConsistent _ env b
        (rehash_action-KeepsConsistent email _
          (credential-IsCredential password (some salt) _ n refl))
        c

  pub authenticate-IsConsistent :
      (raw password : Str) (salt : Option Bytes) (env : Env) (b : Board)
      → salt ≢ some []
      → IsConsistent b.st
      → IsConsistent (authenticate prf raw password salt env b).0.st
  unfolding authenticate
  authenticate-IsConsistent raw password salt env b n c =
      let b' = record b { st = (sweep_locked env.now b.st).0 } in
      let swept = sweep_locked-IsConsistent env.now b.st c in
      let kept = rehash-IsConsistent (normalize_email raw) password salt env b' n swept in
      ground arith
