-- ===== src/SshPush/Defs.antt =====
-- The arguments of ssh and what its run comes to. The run itself is the system's part.
use nft_auth_whitelist.Prelude.{
  ℕ, ◌/◌, Option, none, some, List, [], ◌∷◌, ◌++◌, reverse, Bool, true, false, ◌||◌, ltb, ◌==◌,
  if◌then◌else◌, length,
}
use nft_auth_whitelist.Prelude.Int.{ℤ, pos, negsuc}
use nft_auth_whitelist.Text.{Text, text, text_eq, itoa, prefix}
use nft_auth_whitelist.Clock.{Duration, second}
use nft_auth_whitelist.Nft.{decimal}

pub record Target : Type 0 where
  pub name : Text
  pub user : Text
  pub host : Text
  pub port : ℤ
  pub identity_file : Text
  pub strict_host_key_checking : Bool
  pub known_hosts_file : Text

pub record PushResult : Type 0 where
  pub name : Text
  pub host : Text
  pub port : ℤ
  pub duration_ms : ℤ
  pub ok : Bool
  pub exit_status : ℤ
  pub stdout : Text
  pub reason : Text

-- `int(timeout.Seconds())`, which is exact below 2^23 seconds; the program asks for 12 at most.
-- A negative duration gives no more than 0.
abbrev whole_seconds : Duration → ℕ
whole_seconds (pos n) = n / second
whole_seconds (negsuc n) = 0

unfoldable pub connect_timeout : Duration → ℕ
connect_timeout timeout = if ltb (whole_seconds timeout) 1 then 1 else whole_seconds timeout

unfoldable pub build_args : Target → Duration → List Text
unfolding connect_timeout
build_args t timeout =
    text "-i"
    ∷ t.identity_file
    ∷ text "-p"
    ∷ decimal t.port
    ∷ text "-o"
    ∷ text "BatchMode=yes"
    ∷ text "-o"
    ∷ (text "ConnectTimeout=" ++ itoa (connect_timeout timeout))
    ∷ text "-o"
    ∷ (if t.strict_host_key_checking
        then text "StrictHostKeyChecking=yes"
        else text "StrictHostKeyChecking=no")
    ∷ ((if text_eq t.known_hosts_file []
          then []
          else text "-o" ∷ (text "UserKnownHostsFile=" ++ t.known_hosts_file) ∷ [])
        ++ (t.user ++ (text "@" ++ t.host)) ∷ [])

-- 4 << 10
abbrev pub max_capture : ℕ
max_capture = 4096

unfoldable pub is_space : ℕ → Bool
is_space b = b == b' ' || (b == b'\t' || (b == b'\n' || b == b'\r'))

unfoldable pub skip_spaces : Text → Text
skip_spaces [] = []
skip_spaces (c ∷ s) = let rest = skip_spaces s in if is_space c then rest else c ∷ s

unfoldable pub trim_space_ascii : Text → Text
unfolding skip_spaces is_space
trim_space_ascii s = reverse (skip_spaces (reverse (skip_spaces s)))

abbrev pub truncated_mark : Text
truncated_mark = text "...(truncated)"

unfoldable pub truncate : Text → Text
unfolding trim_space_ascii
truncate s =
    trim_space_ascii
      (if ltb max_capture (length s) then prefix max_capture s ++ truncated_mark else s)

-- How ssh ended: it exited with a status other than 0, or it could not be run.
pub data RunError : Type 0 where
  exited : ℤ → RunError
  not_run : RunError

-- A run of ssh: what it wrote, whether the deadline passed, its error and the text of that.
pub record Run : Type 0 where
  pub out : Text
  pub err : Text
  pub took_ms : ℤ
  pub deadline_exceeded : Bool
  pub error : Option RunError
  pub error_text : Text
  -- `fmt.Sprintf("timeout after %s", timeout)`
  pub timeout_text : Text

abbrev status_of : RunError → ℤ
status_of (exited n) = n
status_of not_run = negsuc 0

abbrev or_else : Text → Text → Text
or_else [] other = other
or_else (c ∷ s) other = c ∷ s

-- The result for a run of `ssh` with the arguments, the payload and the timeout.
unfoldable pub push : (List Text → Text → Duration → Run) → Target → Text → Duration → PushResult
unfolding build_args truncate
push ssh t payload timeout =
    let run = ssh (build_args t timeout) payload timeout in
    let res = λ (ok : Bool) (status : ℤ) (reason : Text).
      (let r : PushResult = record {
        name = t.name;
        host = t.host;
        port = t.port;
        duration_ms = run.took_ms;
        ok = ok;
        exit_status = status;
        stdout = truncate run.out;
        reason = reason;
      } in
        r) in
    if run.deadline_exceeded then res false (pos 0) run.timeout_text else elim run.error [
      | some e ↦ res false (status_of e) (or_else (truncate run.err) run.error_text)
      | none ↦ res true (pos 0) []
    ]
