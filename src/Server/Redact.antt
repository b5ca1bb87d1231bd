-- ===== src/Server/Redact.antt =====
-- redactSecrets: each secret that is set is replaced wherever it stands.
use nft_auth_whitelist.Prelude.{
  ℕ, zero, suc, List, [], ◌∷◌, ◌++◌, ◌-◌, true, false, length, ◌≡◌, refl,
}
use nft_auth_whitelist.Text.{Text, text, has_prefix}
use nft_auth_whitelist.Server.Defs.{ServerConfig}

-- The scan of strings.ReplaceAll for a text that is not empty; `skip` bytes of a match are left.
unfoldable pub replace_from : Text → Text → ℕ → Text → Text
replace_from old new skip [] = []
replace_from old new (suc skip) (c ∷ s) = replace_from old new skip s
replace_from old new zero (c ∷ s) = elim (has_prefix (c ∷ s) old) [
  | true ↦ new ++ replace_from old new (length old - 1) s
  | false ↦ c ∷ replace_from old new zero s
]

unfoldable pub redact_all : List Text → Text → Text
unfolding replace_from
redact_all [] s = s
redact_all ([] ∷ secrets) s = redact_all secrets s
redact_all ((c ∷ secret) ∷ secrets) s =
    redact_all secrets (replace_from (c ∷ secret) (text "<redacted>") zero s)

abbrev pub secret_values : ServerConfig → List Text
secret_values c = c.hmac_secret ∷ c.pull_token ∷ c.password ∷ []

unfoldable pub redact_secrets : ServerConfig → Text → Text
unfolding redact_all
redact_secrets cfg [] = []
redact_secrets cfg (c ∷ s) = redact_all (secret_values cfg) (c ∷ s)

redacts : replace_from (text "ab") (text "*") zero (text "xababy") ≡ text "x**y"
unfolding replace_from has_prefix
redacts = refl
