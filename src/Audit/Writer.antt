-- ===== src/Audit/Writer.antt =====
-- The logger: one line of JSON for each record, at the end of a file or on standard error.
-- encoding/json and the time format are Go's.
use nft_auth_whitelist.Prelude.{
  ℕ, Option, none, some, List, [], ◌∷◌, ◌++◌, ◌≡◌, ◌≢◌, Bool, true, false, All, if◌then◌else◌,
}
use nft_auth_whitelist.Text.{Text, text, text_eq, prefix}
use nft_auth_whitelist.Clock.{Time}
use nft_auth_whitelist.Audit.{
  Action, Level, Value, Event, fine, warn, error, auth_success, auth_fail, entry_add, entry_refresh,
  entry_expire, pull_success, pull_fail, receive_success, receive_fail, push_start, push_success,
  push_fail, push_reconcile, signature_ok, signature_fail, output_write_ok, output_write_fail,
  nft_dry_run, nft_apply_success, nft_apply_fail, rate_limited, auth_frozen, notify_fail,
}

abbrev pub action_text : Action → Text
action_text auth_success = text "auth.success"
action_text auth_fail = text "auth.fail"
action_text entry_add = text "entry.add"
action_text entry_refresh = text "entry.refresh"
action_text entry_expire = text "entry.expire"
action_text pull_success = text "pull.success"
action_text pull_fail = text "pull.fail"
action_text receive_success = text "receive.success"
action_text receive_fail = text "receive.fail"
action_text push_start = text "push.start"
action_text push_success = text "push.success"
action_text push_fail = text "push.fail"
action_text push_reconcile = text "push.reconcile"
action_text signature_ok = text "signature.ok"
action_text signature_fail = text "signature.fail"
action_text output_write_ok = text "output.write.success"
action_text output_write_fail = text "output.write.fail"
action_text nft_dry_run = text "nft.dry_run"
action_text nft_apply_success = text "nft.apply.success"
action_text nft_apply_fail = text "nft.apply.fail"
action_text rate_limited = text "auth.rate_limited"
action_text auth_frozen = text "auth.frozen"
action_text notify_fail = text "notify.fail"

abbrev pub level_text : Level → Text
level_text fine = text "ok"
level_text warn = text "warn"
level_text error = text "error"

-- json.Marshal escapes a line feed in a string, and adds none.
pub record Encoder : Type 0 where
  pub rfc3339 : Time → Text
  pub marshal : Text → Text → Text → List (Text × Value) → Option Text
  pub marshal-one_line :
      (at action result : Text) (detail : List (Text × Value)) (b : Text)
      → marshal at action result detail ≡ some b
      → All (λ c. c ≢ b'\n') b

-- Whether there is a file to close, and what stands where the logger writes.
pub record Logger : Type 0 where
  pub closes : Bool
  pub content : Text

-- `opened` is what the file holds, or none if it cannot be opened.
unfoldable pub new : Text → (stderr : Text) (opened : Option Text) → Option Logger
new path stderr opened =
    if text_eq path []
    then some (record { closes = false; content = stderr })
    else elim opened [ none ↦ none | some c ↦ some (record { closes = true; content = c }) ]

-- One call of Log: its time, its record, and how many bytes the writer takes.
pub record Call : Type 0 where
  pub now : Time
  pub event : Event
  pub accepted : ℕ

module _ (enc : Encoder) where
  abbrev pub record_of : Call → Option Text
  record_of c =
      enc.marshal (enc.rfc3339 c.now) (action_text c.event.action) (level_text c.event.level)
        c.event.detail

  unfoldable pub write_record : ℕ → Option Text → Logger → Logger
  write_record accepted none l = l
  write_record accepted (some b) l = record l {
    content = l.content ++ prefix accepted (b ++ text "\n");
  }

  unfoldable pub log_line : Call → Logger → Logger
  unfolding write_record
  log_line c l = write_record c.accepted (record_of c) l

  unfoldable pub log_all : List Call → Logger → Logger
  unfolding log_line
  log_all [] l = l
  log_all (c ∷ cs) l = log_all cs (log_line c l)

-- Whether there is no error.
unfoldable pub close : (close_ok : Bool) → Logger → Bool
close close_ok l = if l.closes then close_ok else true
