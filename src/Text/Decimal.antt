-- ===== src/Text/Decimal.antt =====
-- strconv.Itoa of a number that is not negative, and the reader of a prefix length in package net.
use nft_auth_whitelist.Prelude.{
  ℕ, zero, suc, ◌+◌, ◌-◌, ◌*◌, ◌/◌, ◌%◌, ◌≤◌, ◌<◌, ◌≡◌, refl, Option, none, some, [], ◌∷◌, Bool,
  true, false, ◌&&◌, arith, leb, ltb, ◌==◌, if◌then◌else◌, All, Bool-cases, inl, inr,
}
use nft_auth_whitelist.Text.Order.{Text}

-- A number below 10 ^ f has at most f digits.
digits : ℕ → ℕ → Text → Text
digits zero n acc = acc
digits (suc f) n acc =
    let d = (b'0' + n % 10) ∷ acc in let more = digits f (n / 10) d in if ltb n 10 then d else more

unfoldable pub itoa : ℕ → Text
unfolding digits
itoa n = digits (suc n) n []

abbrev is_digit : ℕ → Bool
is_digit c = leb b'0' c && leb c b'9'

-- `dtoi` of package net on a whole text: `none` where it fails or leaves a rest. Numbers from
-- 0xFFFFFF on are too big.
abbrev big : ℕ
big = 0xffffff

dtoi_from : ℕ → Text → Option ℕ
dtoi_from n [] = some n
dtoi_from n (c ∷ s) =
    let n' = n * 10 + (c - b'0') in
    let rest = dtoi_from n' s in if is_digit c then (if leb big n' then none else rest) else none

unfoldable pub dtoi : Text → Option ℕ
unfolding dtoi_from
dtoi [] = none
dtoi (c ∷ s) = dtoi_from 0 (c ∷ s)

is_some_of : Option ℕ → ℕ → Bool
is_some_of none n = false
is_some_of (some m) n = m == n

-- The prefix lengths are few: every value is checked.
below : ℕ → (ℕ → Bool) → Bool
below zero p = true
below (suc n) p = p n && below n p

below_sound : (n : ℕ) (p : ℕ → Bool) (x : ℕ) → below n p ≡ true → x < n → p x ≡ true
unfolding below
below_sound zero p x h lt = absurd (omega arith)
below_sound (suc n) p x h lt = ground (arith, below_sound n p x)

table : below 129 (λ n. is_some_of (dtoi (itoa n)) n) ≡ true
unfolding below dtoi itoa is_some_of
table = refl

-- A prefix length reads back as it was printed.
pub dtoi-itoa : (n : ℕ) → n ≤ 128 → dtoi (itoa n) ≡ some n
unfolding is_some_of
dtoi-itoa n h = ground (arith, below_sound 129 _ n table (omega arith))

digits-IsDigit :
    (f n : ℕ) (acc : Text)
    → All (λ c. (b'0' ≤ c) × (c ≤ b'9')) acc
    → All (λ c. (b'0' ≤ c) × (c ≤ b'9')) (digits f n acc)
unfolding digits
digits-IsDigit zero n acc h = h
digits-IsDigit (suc f) n acc h =
    let one : (b'0' ≤ b'0' + n % 10) × (b'0' + n % 10 ≤ b'9') = omega arith in
    let more = digits-IsDigit f (n / 10) ((b'0' + n % 10) ∷ acc) (one, h) in
    elim (Bool-cases (ltb n 10)) [ inl e ↦ rw (digits, e) (one, h) | inr e ↦ rw (digits, e) more ]

pub itoa-IsDigit : (n : ℕ) → All (λ c. (b'0' ≤ c) × (c ≤ b'9')) (itoa n)
unfolding itoa
itoa-IsDigit n = digits-IsDigit (suc n) n [] tt
