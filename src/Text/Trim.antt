-- ===== src/Text/Trim.antt =====
-- strings.TrimSpace, Cut, HasPrefix, Split, Join and ToLower. A space may be a rune of two or three
-- bytes; letters are lowered in ASCII alone, which is all that the prefixes compared with hold.
use nft_auth_whitelist.Prelude.{
  ℕ, zero, suc, ◌+◌, ◌≤◌, ◌≡◌, refl, ap, Option, none, some, List, [], ◌∷◌, ◌++◌, map, reverse,
  Bool, true, false, ◌≢◌, ◌&&◌, ◌||◌, arith, leb, ◌==◌, if◌then◌else◌, length, All, All-append,
}
use nft_auth_whitelist.Text.Order.{Text, text}
use mathlib.Core.List.{reverse-reverse, reverse-cons}

abbrev pub drop {ℓ} : {A : Type ℓ} → ℕ → List A → List A
drop zero xs = xs
drop (suc n) [] = []
drop (suc n) (x ∷ xs) = drop n xs

-- The first bytes of a text.
unfoldable pub prefix : ℕ → Text → Text
prefix zero s = []
prefix (suc n) [] = []
prefix (suc n) (x ∷ s) = x ∷ prefix n s

pub prefix-all : (n : ℕ) (s : Text) → length s ≤ n → prefix n s ≡ s
unfolding prefix
prefix-all zero [] h = refl
prefix-all zero (c ∷ s) h = absurd (omega arith)
prefix-all (suc n) [] h = refl
prefix-all (suc n) (c ∷ s) h = ap (λ t. c ∷ t) (prefix-all n s (omega arith))

-- The ASCII spaces: tab, newline, vertical tab, form feed, return and the space.
abbrev ascii_space : ℕ → Bool
ascii_space c = leb 9 c && leb c 13 || c == 32

-- U+0085, U+00A0
abbrev space_2 : ℕ → ℕ → Bool
space_2 a b = a == 0xc2 && (b == 0x85 || b == 0xa0)

-- U+1680, U+2000 to U+200A, U+2028, U+2029, U+202F, U+205F, U+3000
abbrev space_3 : ℕ → ℕ → ℕ → Bool
space_3 a b c =
    a == 0xe1 && (b == 0x9a && c == 0x80)
    || a == 0xe2
      && (b == 0x80 && (leb 0x80 c && leb c 0x8a || (c == 0xa8 || (c == 0xa9 || c == 0xaf))))
    || a == 0xe2 && (b == 0x81 && c == 0x9f)
    || a == 0xe3 && (b == 0x80 && c == 0x80)

-- The bytes of the space that a text begins with; 0 if it begins with none.
first_space : Text → ℕ
first_space [] = 0
first_space (a ∷ []) = if ascii_space a then 1 else 0
first_space (a ∷ b ∷ []) = if ascii_space a then 1 else if space_2 a b then 2 else 0
first_space (a ∷ b ∷ c ∷ r) =
    if ascii_space a then 1 else if space_2 a b then 2 else if space_3 a b c then 3 else 0

-- The same for the end of a text, which is given backwards.
last_space : Text → ℕ
last_space [] = 0
last_space (a ∷ []) = if ascii_space a then 1 else 0
last_space (a ∷ b ∷ []) = if ascii_space a then 1 else if space_2 b a then 2 else 0
last_space (a ∷ b ∷ c ∷ r) =
    if ascii_space a then 1 else if space_2 b a then 2 else if space_3 c b a then 3 else 0

strip : (Text → ℕ) → ℕ → Text → Text
strip width zero s = s
strip width (suc n) s = elim (width s) [ zero ↦ s | suc w ↦ strip width n (drop (suc w) s) ]

-- strings.TrimSpace: each round takes a byte or more, so the length is fuel enough.
unfoldable pub trim : Text → Text
unfolding strip first_space last_space
trim s = let t = strip first_space (length s) s in reverse (strip last_space (length t) (reverse t))

-- strings.Cut at a byte.
unfoldable pub cut : ℕ → Text → Option (Text × Text)
cut c [] = none
cut c (x ∷ s) =
    if x == c then some ([], s) else elim (cut c s) [ none ↦ none | some p ↦ some (x ∷ p.0, p.1) ]

-- strings.Contains of one byte.
unfoldable pub has_byte : ℕ → Text → Bool
has_byte c [] = false
has_byte c (x ∷ s) = x == c || has_byte c s

unfoldable pub has_prefix : Text → Text → Bool
has_prefix s [] = true
has_prefix [] (p ∷ ps) = false
has_prefix (x ∷ s) (p ∷ ps) = x == p && has_prefix s ps

unfoldable pub lower : Text → Text
lower = map (λ c. if leb b'A' c && leb c b'Z' then c + 32 else c)

abbrev push_byte : ℕ → List Text → List Text
push_byte x [] = (x ∷ []) ∷ []
push_byte x (p ∷ ps) = (x ∷ p) ∷ ps

-- strings.Split at a byte: one part more than separators.
unfoldable pub split : ℕ → Text → List Text
split c [] = [] ∷ []
split c (x ∷ s) = let rest = split c s in if x == c then [] ∷ rest else push_byte x rest

-- strings.Join
unfoldable pub join : Text → List Text → Text
join sep [] = []
join sep (s ∷ []) = s
join sep (s ∷ t ∷ ts) = s ++ (sep ++ join sep (t ∷ ts))

-- A visible ASCII byte.
abbrev pub IsGraph : ℕ → Type 0
IsGraph c = (33 ≤ c) × (c ≤ 126)

first_space_graph : (s : Text) → All IsGraph s → first_space s ≡ 0
unfolding first_space
first_space_graph [] h = refl
first_space_graph (a ∷ []) h = ground arith
first_space_graph (a ∷ b ∷ []) h = ground arith
first_space_graph (a ∷ b ∷ c ∷ r) h = ground arith

last_space_graph : (s : Text) → All IsGraph s → last_space s ≡ 0
unfolding last_space
last_space_graph [] h = refl
last_space_graph (a ∷ []) h = ground arith
last_space_graph (a ∷ b ∷ []) h = ground arith
last_space_graph (a ∷ b ∷ c ∷ r) h = ground arith

strip_none : (width : Text → ℕ) (n : ℕ) (s : Text) → width s ≡ 0 → strip width n s ≡ s
unfolding strip
strip_none width zero s h = refl
strip_none width (suc n) s h = rw (h, strip)

All-reverse : (P : ℕ → Type 0) (s : Text) → All P s → All P (reverse s)
All-reverse P [] h = tt
All-reverse P (x ∷ s) h =
    rw (reverse-cons x s) (All-append P (reverse s) (x ∷ []) (All-reverse P s h.1) (h.0, tt))

-- A text of visible ASCII bytes is trimmed already.
pub trim_graph : (s : Text) → All IsGraph s → trim s ≡ s
unfolding trim
trim_graph s h = rw (strip_none first_space (length s) s (first_space_graph s h)) (
    rw (strip_none last_space (length s) (reverse s) (last_space_graph _ (All-reverse IsGraph s h)))
      (reverse-reverse s))

pub cut-append : (c : ℕ) (s t : Text) → All (λ x. x ≢ c) s → cut c (s ++ c ∷ t) ≡ some (s, t)
unfolding cut
cut-append c [] t h = ground arith
cut-append c (x ∷ s) t h = ground (arith, cut-append c s t h.1, h.0)

trims : trim (text "  a b\n") ≡ text "a b"
unfolding trim
trims = refl
