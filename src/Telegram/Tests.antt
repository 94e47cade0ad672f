-- ===== src/Telegram/Tests.antt =====
-- Runs of the bot, with one operator.
use ai_system.Common.{◌≡◌, refl, true, none, some, [], ◌∷◌, arith}
use ai_system.Common.Value.{absent}
use ai_system.Telegram.{
  Settings, History, Response, Update, start_agent, confirm, rate_limited, handle,
}
use ai_system.Telegram.Roles.{posts, IsOperator, handle-IsOperator, confirm_unchecked}
use ai_system.Telegram.Limit.{admitted, spec_admitted, admitted-eq-spec_admitted}

abbrev settings : Settings
settings = record { telegram_admins = []; telegram_operators = 7 ∷ [] }

abbrev quiet : History
quiet user = []

abbrev answer : Response
answer = record { is_success = true; payload = absent; agents = []; detail = absent; text_end = "" }

handle-IsOperator_example : IsOperator settings (some 7)
unfolding handle ai_system.Telegram.operator_command ai_system.Telegram.ensure_role rate_limited
    ai_system.Guards.Breaker.pop_old
handle-IsOperator_example =
    handle-IsOperator settings (start_agent (some 7) ("/start_agent" ∷ "gold" ∷ [])) answer 100
      quiet refl refl

confirm_unchecked_example :
    posts
      (handle settings
        (confirm "stop" "gold" (record { message = some none; from_user = 8 }))
        answer
        100
        quiet).0
    ≡ true
unfolding rate_limited ai_system.Guards.Breaker.pop_old
confirm_unchecked_example = confirm_unchecked settings "stop" "gold" none 8 answer 100 quiet refl

admitted-eq-spec_admitted_example :
    admitted 7 (1 ∷ 1 ∷ 2 ∷ 62 ∷ []) quiet ≡ spec_admitted (1 ∷ 1 ∷ 2 ∷ 62 ∷ []) []
admitted-eq-spec_admitted_example =
    admitted-eq-spec_admitted 7 (1 ∷ 1 ∷ 2 ∷ 62 ∷ []) quiet refl
      (omega arith, (omega arith, (omega arith, (omega arith, tt))))
