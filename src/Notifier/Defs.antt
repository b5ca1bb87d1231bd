-- ===== src/Notifier/Defs.antt =====
-- The notifier. encoding/json, net/http and the time format are Go's; the goroutine that sends is
-- one step, since nothing waits for it but the shutdown.
use nft_auth_whitelist.Prelude.{
  ℕ, Option, none, some, List, [], ◌∷◌, ◌++◌, Bool, ◌||◌, ltb, if◌then◌else◌,
}
use nft_auth_whitelist.Prelude.Sort.{sort}
use nft_auth_whitelist.Text.{Text, text, text_lt, text_eq}
use nft_auth_whitelist.Clock.{Time, Duration, seconds}
use nft_auth_whitelist.Dict.{Dict, find, keys, MapOrder}
use nft_auth_whitelist.Nft.{decimal}
use nft_auth_whitelist.Audit.{Log, Value, str, num, time, log, count, notify_fail}
use nft_auth_whitelist.Audit
use nft_auth_whitelist.Config.{NotifyConfig}

pub record Notifier : Type 0 where
  pub url : Text
  pub chat_id : Text
  pub timeout : Duration

unfoldable pub new_notifier : NotifyConfig → Notifier
new_notifier cfg = record {
  url = cfg.webhook_url;
  chat_id = cfg.telegram_chat_id;
  timeout = seconds cfg.timeout_seconds;
}

-- What a POST comes to.
pub data Reply : Type 0 where
  request_failed : Reply
  replied : ℕ → Reply

-- json.Marshal sorts the keys of a map, so it is handed the pairs in the order of their keys.
pub record Outside : Type 0 where
  pub marshal_event : Text → Time → List (Text × Value) → Option Text
  pub marshal_message : Text → Text → Option Text
  pub rfc3339 : Time → Text
  pub post : Text → Text → Duration → Reply
  pub detail_order : MapOrder Value

unfoldable pub by_key : Text × Value → Text × Value → Bool
by_key a b = text_lt a.0 b.0

module _ (o : Outside) where
  -- `%v`
  abbrev pub show : Option Value → Text
  show none = text "<nil>"
  show (some (str s)) = s
  show (some (num n)) = decimal n
  show (some (time t)) = o.rfc3339 t

  -- A line "key: value" for each key.
  unfoldable pub lines : Dict Value → List Text → Text
  lines detail [] = []
  lines detail (k ∷ ks) =
      text "\n" ++ (k ++ (text ": " ++ (show (find k detail) ++ lines detail ks)))

  unfoldable pub payload : Notifier → Time → Text → Dict Value → Option Text
  unfolding lines by_key
  payload n now event detail =
      if text_eq n.chat_id []
      then o.marshal_event event now (sort by_key detail)
      else o.marshal_message n.chat_id (
          text "nft-auth-whitelist: "
          ++ (event ++ lines detail (sort text_lt (keys (o.detail_order.order 0 detail)))))

  unfoldable pub log_reply : Text → Reply → Log → Log
  log_reply event request_failed al =
      log notify_fail Audit.warn
        ((text "event", str event) ∷ (text "reason", str (text "webhook request failed")) ∷ []) al
  log_reply event (replied status) al =
      if ltb status 200 || ltb 299 status
      then log notify_fail Audit.warn
          ((text "event", str event) ∷ (text "status", count status) ∷ []) al
      else al

  abbrev pub send : Notifier → Text → Option Text → Log → Log
  send n event none al = al
  send n event (some body) al = log_reply event (o.post n.url body n.timeout) al

  unfoldable pub notify : Notifier → Time → Text → Dict Value → Log → Log
  unfolding payload log_reply
  notify n now event detail al =
      if text_eq n.url [] then al else send n event (payload n now event detail) al
