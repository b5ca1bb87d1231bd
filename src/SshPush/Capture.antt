-- ===== src/SshPush/Capture.antt =====
-- What is kept of ssh's output is short and has no space at its ends.
use mathlib.Core.List.{reverse-reverse, reverse-cons}
use nft_auth_whitelist.Prelude.{
  ℕ, suc, zero, ◌+◌, ◌≤◌, [], ◌∷◌, ◌++◌, ◌≡◌, refl, subst, reverse, false, arith, ltb,
  if◌then◌else◌, length, Bool-cases, inl, inr,
}
use nft_auth_whitelist.Text.{Text, prefix}
use nft_auth_whitelist.SshPush.Defs.{
  is_space, skip_spaces, trim_space_ascii, truncate, max_capture, truncated_mark,
}

length-skip_spaces : (s : Text) → length (skip_spaces s) ≤ length s
unfolding skip_spaces
length-skip_spaces [] = omega arith
length-skip_spaces (c ∷ s) = ground (arith, length-skip_spaces s)

length-append : (s t : Text) → length (s ++ t) ≡ length s + length t
length-append [] t = omega arith
length-append (c ∷ s) t = ground (arith, length-append s t)

length-reverse : (s : Text) → length (reverse s) ≡ length s
length-reverse [] = refl
length-reverse (c ∷ s) = rw (reverse-cons c s, length-append, length-reverse s) (omega arith)

length-prefix_le : (n : ℕ) (s : Text) → length (prefix n s) ≤ n
unfolding prefix
length-prefix_le zero s = omega arith
length-prefix_le (suc n) [] = omega arith
length-prefix_le (suc n) (c ∷ s) = ground (arith, length-prefix_le n s)

length-trim : (s : Text) → length (trim_space_ascii s) ≤ length s
unfolding trim_space_ascii
length-trim s =
    let a = length-skip_spaces s in
    let b = length-skip_spaces (reverse (skip_spaces s)) in
    let c = length-reverse (skip_spaces s) in
    let d = length-reverse (skip_spaces (reverse (skip_spaces s))) in omega arith

-- The first byte, if there is one, is no space.
abbrev pub StartsClean : Text → Type 0
StartsClean [] = Unit
StartsClean (c ∷ s) = is_space c ≡ false

pub record IsShort (s : Text) : Type 0 where
  pub bound : length s ≤ max_capture + length truncated_mark
  pub start : StartsClean s
  pub end : StartsClean (reverse s)

skip_spaces-StartsClean : (s : Text) → StartsClean (skip_spaces s)
unfolding skip_spaces
skip_spaces-StartsClean [] = tt
skip_spaces-StartsClean (c ∷ s) = elim (Bool-cases (is_space c)) [
  | inl e ↦ rw (skip_spaces, e) (skip_spaces-StartsClean s)
  | inr e ↦ rw (skip_spaces, e) e
]

front : (r t : Text) → StartsClean (r ++ t) → StartsClean r
front [] t h = tt
front (c ∷ r) t h = h

-- Dropping spaces at the front leaves the last byte alone, if anything is left.
last_clean : (s : Text) → StartsClean (reverse s) → StartsClean (reverse (skip_spaces s))
unfolding skip_spaces
last_clean [] h = tt
last_clean (c ∷ s) h = elim (Bool-cases (is_space c)) [
  | inl e ↦
      rw (skip_spaces, e)
        (last_clean s (front (reverse s) (c ∷ []) (subst StartsClean (reverse-cons c s) h)))
  | inr e ↦ rw (skip_spaces, e) h
]

trim-StartsClean :
    (s : Text) → StartsClean (trim_space_ascii s) × StartsClean (reverse (trim_space_ascii s))
unfolding trim_space_ascii
trim-StartsClean s =
    let start = skip_spaces-StartsClean s in
    let middle = skip_spaces s in
    (
      last_clean (reverse middle) (rw reverse-reverse start),
      rw reverse-reverse (skip_spaces-StartsClean (reverse middle)),
    )

cut_length :
    (s : Text)
    → length (if ltb max_capture (length s) then prefix max_capture s ++ truncated_mark else s)
      ≤ max_capture + length truncated_mark
cut_length s = elim (Bool-cases (ltb max_capture (length s))) [
  | inl e ↦ let l = length-prefix_le max_capture s in rw (e, length-append) (omega arith)
  | inr e ↦ rw e (ground arith)
]

-- What is kept of ssh's output has at most 4096 bytes and the mark of the cut, and no space at
-- either end.
pub truncate-IsShort : (s : Text) → IsShort (truncate s)
unfolding truncate
truncate-IsShort s =
    let cut = (if ltb max_capture (length s) then prefix max_capture s ++ truncated_mark else s) in
    let clean = trim-StartsClean cut in
    let short = length-trim cut in
    let bound = cut_length s in record { bound = omega arith; start = clean.0; end = clean.1 }
