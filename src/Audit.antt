-- ===== src/Audit.antt =====
-- internal/audit/audit.go: the audit log as the list of its records, oldest first, which is how the
-- other parts keep it. Writer has the time stamps and the lines of the file.
pub mod Writer
pub mod Lines
use nft_auth_whitelist.Prelude.{ℕ, List, [], ◌∷◌, ◌++◌}
use nft_auth_whitelist.Prelude.Int.{ℤ, pos}
use nft_auth_whitelist.Text.{Text}
use nft_auth_whitelist.Clock.{Time}

pub data Action : Type 0 where
  auth_success auth_fail entry_add entry_refresh entry_expire pull_success pull_fail : Action
  receive_success receive_fail push_start push_success push_fail push_reconcile : Action
  signature_ok signature_fail output_write_ok output_write_fail : Action
  nft_dry_run nft_apply_success nft_apply_fail rate_limited auth_frozen notify_fail : Action

-- The results "ok", "warn" and "error".
pub data Level : Type 0 where
  fine warn error : Level

pub data Value : Type 0 where
  str : Text → Value
  num : ℤ → Value
  -- A time in the form of RFC 3339.
  time : Time → Value

pub record Event : Type 0 where
  pub action : Action
  pub level : Level
  pub detail : List (Text × Value)

abbrev pub Log : Type 0
Log = List Event

abbrev pub log : Action → Level → List (Text × Value) → Log → Log
log a l detail al = al ++ record { action = a; level = l; detail = detail } ∷ []

abbrev pub count : ℕ → Value
count n = num (pos n)
