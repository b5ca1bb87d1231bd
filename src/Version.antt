-- ===== src/Version.antt =====
-- internal/version/version.go: the line that -version prints. The linker may set the three values.
use nft_auth_whitelist.Prelude.{◌++◌}
use nft_auth_whitelist.Text.{Text, text}

pub record Build : Type 0 where
  pub version : Text
  pub commit : Text
  pub date : Text

abbrev pub default_build : Build
default_build = record { version = text "0.7.1"; commit = text "dev"; date = text "unknown" }

unfoldable pub string : Build → Text
string b =
    text "nft-auth-whitelist "
    ++ (b.version ++ (text " (commit " ++ (b.commit ++ (text ", built " ++ (b.date ++ text ")")))))
