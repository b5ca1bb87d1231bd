-- ===== src/SshPush/Arguments.antt =====
-- ssh reads options and a destination, and no remote command.
use nft_auth_whitelist.Prelude.{
  Option, none, some, List, [], ◌∷◌, ◌++◌, ◌≡◌, Bool, false, if◌then◌else◌, Bool-cases, inl, inr,
}
use nft_auth_whitelist.Text.{Text, text, text_eq, itoa, has_prefix}
use nft_auth_whitelist.Clock.{Duration}
use nft_auth_whitelist.Nft.{decimal}
use nft_auth_whitelist.SshPush.Defs.{Target, build_args, connect_timeout}

-- What ssh makes of its arguments: the options with their values, the destination, and the words
-- of a remote command.
pub record Command : Type 0 where
  pub options : List (Text × Text)
  pub destination : Text
  pub command : List Text

-- An option, whose value is the next argument in all that the program uses.
abbrev pub is_option : Text → Bool
is_option a = has_prefix a (text "-")

abbrev add_option : Text → Text → Option Command → Option Command
add_option o v none = none
add_option o v (some c) = some (record c { options = (o, v) ∷ c.options })

-- ssh reads options up to the first argument that is none, the destination.
unfoldable pub read_args : List Text → Option Command
read_args [] = none
read_args (a ∷ []) =
    if is_option a then none else some (record { options = []; destination = a; command = [] })
read_args (a ∷ b ∷ rest) =
    let more = read_args rest in
    if is_option a
    then add_option a b more
    else some (record { options = []; destination = a; command = b ∷ rest })

abbrev pub destination : Target → Text
destination t = t.user ++ (text "@" ++ t.host)

-- The options of a target.
abbrev pub known_hosts : Target → List (Text × Text)
known_hosts t =
    if text_eq t.known_hosts_file []
    then []
    else (text "-o", text "UserKnownHostsFile=" ++ t.known_hosts_file) ∷ []

abbrev pub options_of : Target → Duration → List (Text × Text)
options_of t timeout =
    (text "-i", t.identity_file)
    ∷ (text "-p", decimal t.port)
    ∷ (text "-o", text "BatchMode=yes")
    ∷ (text "-o", text "ConnectTimeout=" ++ itoa (connect_timeout timeout))
    ∷ (
      text "-o",
      if t.strict_host_key_checking
          then text "StrictHostKeyChecking=yes"
          else text "StrictHostKeyChecking=no",
    )
    ∷ known_hosts t

-- For a destination that does not begin with a dash, a reader of ssh's options finds in the
-- arguments the options of the target, its destination and no remote command.
pub build_args-read :
    (t : Target) (timeout : Duration)
    → is_option (destination t) ≡ false
    → read_args (build_args t timeout)
      ≡ some (
          let c : Command = record {
            options = options_of t timeout;
            destination = destination t;
            command = [];
          } in
          c)
unfolding build_args read_args has_prefix
build_args-read t timeout h = elim (Bool-cases (text_eq t.known_hosts_file [])) [
  | inl e ↦ rw (e, read_args, h)
  | inr e ↦ rw (e, read_args, h)
]
