-- ===== src/Telegram/Roles.antt =====
-- Who can make the bot post to the gateway, that is, start and stop agents.
use ai_system.Common.{
  ℕ, ◌≤◌, ◌≡◌, refl, String, Bool, true, false, Option, none, some, List, [], ◌∷◌, ◌||◌, leb→le,
  arith, Bool-cases, inl, inr,
}
use ai_system.Auth.{operator, role_level}
use ai_system.Telegram.{
  Settings, role_for, History, rate_limited, get, post, Response, Effect, called, recorded, control,
  ensure_role, unless_limited, open_command, guarded, operator_command, Callback, button_callback,
  may_press, confirmed, confirm_callback, Update, start, help_asked, status_asked, agents_asked,
  start_agent, stop_agent, logs_asked, start_button, stop_button, confirm, handle, handle_logs,
}

abbrev is_post : Effect → Bool
is_post (called (get path)) = false
is_post (called (post path key)) = true
is_post _ = false

-- Whether some effect is a post to the gateway
abbrev pub posts : List Effect → Bool
posts [] = false
posts (e ∷ es) = is_post e || posts es

module _ (settings : Settings) where
  -- The user that an update comes from
  abbrev pub sender : Update settings → Option ℕ
  sender (start user) = some user
  sender (help_asked user) = some user
  sender (status_asked user) = some user
  sender (agents_asked user) = some user
  sender (start_agent from_user parts) = from_user
  sender (stop_agent from_user parts) = from_user
  sender (logs_asked from_user parts) = from_user
  sender (start_button agent c) = some c.from_user
  sender (stop_button agent c) = some c.from_user
  sender (confirm action agent c) = some c.from_user

  abbrev pub is_confirm : Update settings → Bool
  is_confirm (confirm action agent c) = true
  is_confirm _ = false

  abbrev pub IsOperator : Option ℕ → Type 0
  IsOperator none = ⊥
  IsOperator (some user) = 1 ≤ role_level (role_for settings user)

  unless_limited-silent :
      (l : Bool × History) (es : List Effect)
      → posts es ≡ false
      → posts (unless_limited settings l es).0 ≡ false
  unless_limited-silent (true, h) es q = refl
  unless_limited-silent (false, h) es q = q

  -- Only a granted command has effects that post.
  guarded_granted :
      (granted : Bool) (from_user : Option ℕ) (now : ℕ) (es : List Effect) (h : History)
      → posts (guarded settings granted from_user now es h).0 ≡ true
      → granted ≡ true
  guarded_granted true from_user now es h p = refl
  guarded_granted false none now es h p = p
  guarded_granted false (some user) now es h p = p

  ensure_role-IsOperator :
      (from_user : Option ℕ) → ensure_role settings from_user operator ≡ true → IsOperator from_user
  unfolding ensure_role
  ensure_role-IsOperator none g = ground (arith, g)
  ensure_role-IsOperator (some user) g = leb→le 1 (role_level (role_for settings user)) g

  operator_command-IsOperator :
      (command : String) (run : String → List Effect) (from_user : Option ℕ) (parts : List String)
      (now : ℕ) (h : History)
      → posts (operator_command settings command run from_user parts now h).0 ≡ true
      → IsOperator from_user
  unfolding operator_command
  operator_command-IsOperator command run from_user parts now h p =
      ensure_role-IsOperator from_user
        (guarded_granted (ensure_role settings from_user operator) from_user now _ h p)

  open_command_silent :
      (command : String) (es : List Effect) (user now : ℕ) (h : History)
      → posts es ≡ false
      → posts (open_command settings command es user now h).0 ≡ false
  unfolding open_command
  open_command_silent command es user now h q =
      unless_limited-silent (rate_limited user now h)
        (recorded command (role_for settings user) ∷ es) q

  button_callback_silent :
      (action command agent : String) (c : Callback settings)
      → posts (button_callback settings action command agent c) ≡ false
  unfolding button_callback
  button_callback_silent action command agent c = elim (Bool-cases (may_press settings c.message)) [
    | inl may ↦ rw may refl
    | inr cannot ↦ rw cannot refl
  ]

  absurd_post : {A : Type 0} (b : Bool) → b ≡ false → b ≡ true → A
  absurd_post b f t = ground (arith, f, t)

  -- Except for a pressed confirm button, an update makes the bot post to the gateway, and so start
  -- or stop an agent, only if its sender is configured as an operator or an admin.
  pub handle-IsOperator :
      (u : Update settings) (r : Response) (now : ℕ) (h : History)
      → is_confirm u ≡ false
      → posts (handle settings u r now h).0 ≡ true
      → IsOperator (sender u)
  unfolding handle
  handle-IsOperator (start user) r now h c p =
      absurd_post _ (open_command_silent "start" _ user now h refl) p
  handle-IsOperator (help_asked user) r now h c p = absurd_post _ refl p
  handle-IsOperator (status_asked user) r now h c p =
      absurd_post _ (open_command_silent "status" _ user now h refl) p
  handle-IsOperator (agents_asked user) r now h c p =
      absurd_post _ (open_command_silent "agents" _ user now h refl) p
  handle-IsOperator (start_agent from_user parts) r now h c p =
      operator_command-IsOperator "/start_agent" (λ agent. control agent "start" r) from_user parts
        now h p
  handle-IsOperator (stop_agent from_user parts) r now h c p =
      operator_command-IsOperator "/stop_agent" (λ agent. control agent "stop" r) from_user parts
        now h p
  handle-IsOperator (logs_asked from_user parts) r now h c p =
      operator_command-IsOperator "/logs" (λ agent. handle_logs agent r) from_user parts now h p
  handle-IsOperator (start_button agent b) r now h c p =
      absurd_post _ (button_callback_silent "start" "start_button" agent b) p
  handle-IsOperator (stop_button agent b) r now h c p =
      absurd_post _ (button_callback_silent "stop" "stop_button" agent b) p
  handle-IsOperator (confirm action agent b) r now h c p = absurd_post true c refl

  -- A confirm button that stands under a message makes the bot post whoever presses it, as long as
  -- the limit of that user is not reached: the handler looks at no role.
  pub confirm_unchecked :
      (action agent : String) (author : Option ℕ) (user : ℕ) (r : Response) (now : ℕ) (h : History)
      → (rate_limited user now h).0 ≡ false
      → posts
          (handle settings
            (confirm action agent (record { message = some author; from_user = user }))
            r
            now
            h).0
        ≡ true
  unfolding handle confirm_callback
  confirm_unchecked action agent author user r now h free =
      confirmed_posts (rate_limited user now h) free
    where
      confirmed_posts :
          (l : Bool × History)
          → l.0 ≡ false
          → posts
              (confirmed settings l
                (role_for settings user)
                (some author)
                (control agent action r)).0
            ≡ true
      confirmed_posts (true, h') f = absurd_post true f refl
      confirmed_posts (false, h') f = refl
