-- ===== src/Pages.antt =====
-- app/web/ui/src/routes: what the pages do, apart from their markup. The functions of a page's script
-- are handlers of a state; a promise that a page waits for is answered by an event of its own.
pub mod Overview
pub mod Editor
pub mod Yaml
pub mod Settings
pub mod Statistics
pub mod Connections
use jumpway.Prelude.{ℕ, List, Option, none, some, Text, nat_beq, Bool, false, if◌then◌else◌}
use jumpway.Wire.{Rule}
use jumpway.Api.{ApiError, ErrorText, is_unreachable, error_message}

-- The requests to /apis/configs that change a rule.
pub data RuleWrite : Type 0 where
  creates : Rule → RuleWrite
  updates : (name : Text) → Rule → RuleWrite
  deletes : (name : Text) → RuleWrite

-- What a page says in a toast.
pub data Saying : Type 0 where
  saved deleted uncertain reloaded : Saying
  warned failed_with : ApiError → Saying

-- `WriteFailure` and `writeFailure` of settings.ts: a write without an answer may have been applied.
pub data WriteFailure : Type 0 where
  save_uncertain : WriteFailure
  request_failed : ErrorText → WriteFailure

unfoldable pub write_failure : ApiError → WriteFailure
write_failure reason =
    if is_unreachable reason then save_uncertain else request_failed (error_message reason)

-- Whether a request that a variable holds, by its number, is `own`.
abbrev pub owns : Option ℕ → ℕ → Bool
owns none own = false
owns (some n) own = nat_beq n own
