-- ===== src/ListCompiler/Outcome.antt =====
-- What one source line becomes in xr-lists/compile.py: rules and typed refusals. A dictionary's
-- absent `domains` or `exclude_domains` key is the empty list, an absent `resource` is `none`.
use xr_browser.Prelude.{Text, Option, List, strip}
use xr_browser.ListCompiler.Reason.{Reason}

pub data Action : Type 0 where
  block allow redirect : Action

pub data Kind : Type 0 where
  network cosmetic redirect : Kind

pub record Rule : Type 0 where
  pub action : Action
  pub filter : Text
  pub kind : Kind
  pub domains : List Text
  pub exclude_domains : List Text
  pub resource : Option Text

pub record Refusal : Type 0 where
  pub directive : Text
  pub reason : Reason

pub data Outcome : Type 0 where
  rule : Rule → Outcome
  refused : Refusal → Outcome

-- refusal(line, reason)
unfoldable pub refusal : Text → Reason → Outcome
refusal line reason = refused (record { directive = strip line; reason = reason })
