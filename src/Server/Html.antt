-- ===== src/Server/Html.antt =====
-- The text of the pages: UTF-8, and html.EscapeString.
use Prim.Native.Char.{code}
use Prim.Native.String.{String}
use nft_auth_whitelist.Prelude.{
  ℕ, ◌+◌, ◌/◌, ◌%◌, List, [], ◌∷◌, ◌++◌, Bool, ◌||◌, ◌==◌, ltb, if◌then◌else◌, select, ◌≡◌, refl,
}
use nft_auth_whitelist.Text.{Text, text}

-- The bytes of a code point.
abbrev encode_rune : ℕ → Text
encode_rune c =
    if ltb c 0x80
    then c ∷ []
    else if ltb c 0x800
    then (0xc0 + c / 64) ∷ (0x80 + c % 64) ∷ []
    else if ltb c 0x10000
    then (0xe0 + c / 4096) ∷ (0x80 + c / 64 % 64) ∷ (0x80 + c % 64) ∷ []
    else (0xf0 + c / 262144) ∷ (0x80 + c / 4096 % 64) ∷ (0x80 + c / 64 % 64) ∷ (0x80 + c % 64) ∷ []

abbrev pub concat : List Text → Text
concat [] = []
concat (s ∷ ss) = s ++ concat ss

-- A literal of the source that is not ASCII.
abbrev pub utf8 : String → Text
utf8 String.[] = []
utf8 (String.◌∷◌ c s) = encode_rune (code c) ++ utf8 s

unfoldable pub escape_byte : ℕ → Text
escape_byte c =
    if c == b'&'
    then text "&amp;"
    else if c == b'\''
    then text "&#39;"
    else if c == b'<'
    then text "&lt;"
    else if c == b'>'
    then text "&gt;"
    else if c == b'"'
    then text "&#34;"
    else c ∷ []

-- html.EscapeString
unfoldable pub escape_string : Text → Text
unfolding escape_byte
escape_string [] = []
escape_string (c ∷ s) = escape_byte c ++ escape_string s

-- The bytes that open or close a tag or an attribute.
abbrev pub is_markup : ℕ → Bool
is_markup c = c == b'<' || (c == b'>' || (c == b'"' || c == b'\''))

unfoldable pub markup : Text → Text
markup = select is_markup

dash : utf8 "—" ≡ 0xe2 ∷ 0x80 ∷ 0x94 ∷ []
dash = refl

escapes : escape_string (text "<a href=\"x\">") ≡ text "&lt;a href=&#34;x&#34;&gt;"
unfolding escape_string
escapes = refl
