-- ===== src/Net/HostPort.antt =====
-- net.SplitHostPort, of whose results the program uses the host.
use nft_auth_whitelist.Prelude.{
  ◌≡◌, refl, Option, none, some, [], ◌∷◌, not, ◌&&◌, ◌||◌, ◌==◌, if◌then◌else◌,
}
use nft_auth_whitelist.Text.{Text, text, cut, has_byte}

-- The text before the last colon.
before_last : Text → Option Text
before_last [] = none
before_last (c ∷ s) = elim (before_last s) [
  | none ↦ if c == b':' then some [] else none
  | some t ↦ some (c ∷ t)
]

plain_host : Text → Text → Option Text
plain_host s host =
    if has_byte b':' host || (has_byte b'[' s || has_byte b']' s) then none else some host

-- Behind "[host]" only ":port" may stand.
bracketed : Text → Text → Text → Option Text
bracketed r host [] = none
bracketed r host (c ∷ port) =
    if c == b':' && not (has_byte b':' port || (has_byte b'[' r || has_byte b']' port))
    then some host
    else none

split_bracketed : Text → Option Text
unfolding bracketed
split_bracketed r = elim (cut b']' r) [ none ↦ none | some (host, rest) ↦ bracketed r host rest ]

split_plain : Text → Option Text
unfolding plain_host before_last
split_plain s = elim (before_last s) [ none ↦ none | some host ↦ plain_host s host ]

unfoldable pub split_host_port : Text → Option Text
unfolding split_bracketed split_plain
split_host_port [] = none
split_host_port (c ∷ r) = if c == b'[' then split_bracketed r else split_plain (c ∷ r)

hosts :
    (split_host_port (text "10.0.0.1:80") ≡ some (text "10.0.0.1"))
    × (split_host_port (text "[::1]:80") ≡ some (text "::1"))
    × (split_host_port (text "::1") ≡ none)
unfolding split_host_port cut has_byte
hosts = (refl, refl, refl)
