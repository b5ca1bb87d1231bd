-- ===== src/Text/Order.antt =====
-- Equality and order of strings: `==`, `!=` and `<` compare byte by byte.
use Prim.Native.Char.{code}
use Prim.Native.String.{String}
use nft_auth_whitelist.Prelude.{
  ℕ, ◌≡◌, refl, ◌↔◌, ◌≢◌, ◌⊎◌, inl, inr, Bool, true, false, List, [], ◌∷◌, ◌&&◌, arith, ltb, ◌==◌,
  if◌then◌else◌, Bool-cases,
}
use nft_auth_whitelist.Prelude.Sort.{IsOrder}

abbrev pub Text : Type 0
Text = List ℕ

-- A literal of the source.
abbrev pub text : String → Text
text String.[] = []
text (String.◌∷◌ c s) = code c ∷ text s

unfoldable pub text_eq : Text → Text → Bool
text_eq [] [] = true
text_eq [] (y ∷ ys) = false
text_eq (x ∷ xs) [] = false
text_eq (x ∷ xs) (y ∷ ys) = x == y && text_eq xs ys

unfoldable pub text_lt : Text → Text → Bool
text_lt [] [] = false
text_lt [] (y ∷ ys) = true
text_lt (x ∷ xs) [] = false
text_lt (x ∷ xs) (y ∷ ys) = if ltb x y then true else if ltb y x then false else text_lt xs ys

pub eq_of_text_eq : (s t : Text) → text_eq s t ≡ true → s ≡ t
unfolding text_eq
eq_of_text_eq [] [] h = refl
eq_of_text_eq [] (y ∷ ys) h = cc
eq_of_text_eq (x ∷ xs) [] h = cc
eq_of_text_eq (x ∷ xs) (y ∷ ys) h = ground (arith, eq_of_text_eq xs ys)

pub text_eq_refl : (s : Text) → text_eq s s ≡ true
unfolding text_eq
text_eq_refl [] = refl
text_eq_refl (x ∷ xs) = ground (arith, text_eq_refl xs)

pub text_eq_iff : (s t : Text) → (text_eq s t ≡ true) ↔ (s ≡ t)
text_eq_iff s t = (eq_of_text_eq s t, λ e. rw e (text_eq_refl t))

pub text_ne : (s t : Text) → text_eq s t ≡ false → s ≢ t
text_ne s t h e = cc ((text_eq_iff s t).1 e)

text_lt_asym : (s t : Text) → text_lt s t ≡ true → text_lt t s ≡ false
unfolding text_lt
text_lt_asym [] [] h = cc
text_lt_asym [] (y ∷ ys) h = refl
text_lt_asym (x ∷ xs) [] h = cc
text_lt_asym (x ∷ xs) (y ∷ ys) h = ground (arith, text_lt_asym xs ys)

text_lt_between : (s t u : Text) → text_lt s t ≡ true → text_lt u t ≡ false → text_lt s u ≡ true
unfolding text_lt
text_lt_between [] [] u h k = cc
text_lt_between [] (y ∷ ys) [] h k = cc
text_lt_between [] (y ∷ ys) (z ∷ zs) h k = refl
text_lt_between (x ∷ xs) [] u h k = cc
text_lt_between (x ∷ xs) (y ∷ ys) [] h k = cc
text_lt_between (x ∷ xs) (y ∷ ys) (z ∷ zs) h k = ground (arith, text_lt_between xs ys zs)

pub text_lt-IsOrder : IsOrder text_lt
text_lt-IsOrder = record { asym = text_lt_asym; between = text_lt_between }

-- Two strings of which neither is less are the same.
pub text_lt_total : (s t : Text) → s ≢ t → (text_lt s t ≡ true) ⊎ (text_lt t s ≡ true)
unfolding text_lt
text_lt_total [] [] h = absurd (h refl)
text_lt_total [] (y ∷ ys) h = inl refl
text_lt_total (x ∷ xs) [] h = inr refl
text_lt_total (x ∷ xs) (y ∷ ys) h = elim (Bool-cases (x == y)) [
  | inl e ↦
      let e' : x ≡ y = ground arith in let rest = text_lt_total xs ys (λ p. h (cc)) in ground arith
  | inr e ↦ ground arith
]

pub text_eq_comm : (s t : Text) → text_eq s t ≡ text_eq t s
text_eq_comm s t = ground (arith, text_eq_iff s t, text_eq_iff t s)

pub text_total : (s t : Text) → (s ≡ t) ⊎ ((text_lt s t ≡ true) ⊎ (text_lt t s ≡ true))
text_total s t = elim (Bool-cases (text_eq s t)) [
  | inl e ↦ inl ((text_eq_iff s t).0 e)
  | inr e ↦ inr (text_lt_total s t (text_ne s t e))
]
