-- ===== src/Prelude/Lists.antt =====
-- Lists measured by native numbers, the predicates on lists by recursion, and membership tests.
use Prim.Native.Nat.{ℕ, suc, ◌+◌, ◌≤◌}
use mathlib.Core.Path.{◌≡◌, refl, ap, subst}
use mathlib.Core.Bool.{Bool, true, false, not}
use mathlib.Core.Logic.{◌⊎◌}
use mathlib.Core.List.Permᴰ
use mathlib.Core.List.{List, [], ◌∷◌, ◌++◌, Permᴰ}
use native.Mathlib.Omega.{arith}
use nft_auth_whitelist.Prelude.Tests.{if◌then◌else◌}

module _ {ℓ} {A : Type ℓ} where
  abbrev pub length : List A → ℕ
  length [] = 0
  length (x ∷ xs) = suc (length xs)

  -- The members that pass a test, in order.
  abbrev pub select : (A → Bool) → List A → List A
  select p [] = []
  select p (x ∷ xs) = if p x then x ∷ select p xs else select p xs

  pub length-append : (xs ys : List A) → length (xs ++ ys) ≡ length xs + length ys
  length-append [] ys = omega arith
  length-append (x ∷ xs) ys = omega (arith, length-append xs ys)

  pub length-select-le : (p : A → Bool) (xs : List A) → length (select p xs) ≤ length xs
  length-select-le p [] = omega arith
  length-select-le p (x ∷ xs) = ground (arith, length-select-le p xs)

  pub length-perm : {xs ys : List A} → Permᴰ xs ys → length xs ≡ length ys
  length-perm Permᴰ.nil = refl
  length-perm (Permᴰ.cons e p) = ap suc (length-perm p)
  length-perm (Permᴰ.swap e f) = refl
  length-perm (Permᴰ.trans p q) = omega (arith, length-perm p, length-perm q)

module _ {A : Type 0} where
  -- Membership, with the place.
  abbrev pub IsIn : A → List A → Type 0
  IsIn x [] = ⊥
  IsIn x (y ∷ ys) = (x ≡ y) ⊎ IsIn x ys

module _ {ℓ κ} {A : Type ℓ} (P : A → Type κ) where
  -- Every member has the property.
  abbrev pub All : List A → Type κ
  All [] = Unit
  All (x ∷ xs) = P x × All xs

module _ {ℓ κ} {A : Type ℓ} (P : A → Type κ) where
  pub All-append : (xs ys : List A) → All P xs → All P ys → All P (xs ++ ys)
  All-append [] ys h k = k
  All-append (x ∷ xs) ys h k = (h.0, All-append xs ys h.1 k)

  pub All-perm : {xs ys : List A} → Permᴰ xs ys → All P xs → All P ys
  All-perm Permᴰ.nil h = h
  All-perm (Permᴰ.cons e p) h = (subst P e h.0, All-perm p h.1)
  All-perm (Permᴰ.swap e f) h = (subst P f h.1.0, (subst P e h.0, h.1.1))
  All-perm (Permᴰ.trans p q) h = All-perm q (All-perm p h)

  pub All-select : (p : A → Bool) (xs : List A) → All P xs → All P (select p xs)
  All-select p [] h = h
  All-select p (x ∷ xs) h = ground (arith, All-select p xs h.1)

  pub All-append_left : (xs ys : List A) → All P (xs ++ ys) → All P xs
  All-append_left [] ys h = tt
  All-append_left (x ∷ xs) ys h = (h.0, All-append_left xs ys h.1)

  pub All-append_right : (xs ys : List A) → All P (xs ++ ys) → All P ys
  All-append_right [] ys h = h
  All-append_right (x ∷ xs) ys h = All-append_right xs ys h.1

  pub All_of : (xs : List A) → ((x : A) → P x) → All P xs
  All_of [] h = tt
  All_of (x ∷ xs) h = (h x, All_of xs h)

module _ {ℓ} {A : Type ℓ} where
  pub All-select_self : (p : A → Bool) (xs : List A) → All (λ x. p x ≡ true) (select p xs)
  All-select_self p [] = tt
  All-select_self p (x ∷ xs) = ground (arith, All-select_self p xs)

module _ {ℓ κ μ} {A : Type ℓ} (P : A → Type κ) (Q : A → Type μ) where
  pub All-and : (xs : List A) → All P xs → All Q xs → All (λ x. P x × Q x) xs
  All-and [] h k = tt
  All-and (x ∷ xs) h k = ((h.0, k.0), All-and xs h.1 k.1)

module _ {ℓ κ μ} {A : Type ℓ} (P : A → Type κ) (Q : A → Type μ) where
  pub All-map : (xs : List A) → ((x : A) → P x → Q x) → All P xs → All Q xs
  All-map [] f h = tt
  All-map (x ∷ xs) f h = (f x h.0, All-map xs f h.1)

module _ {ℓ κ} {A : Type ℓ} (P : A → Type κ) (q : A → Bool) where
  -- What is true of all members that fail a test is true of all that are left without the others.
  pub All-select_not :
      (xs : List A) → All (λ x. (q x ≡ true) ⊎ P x) xs → All P (select (λ x. not (q x)) xs)
  All-select_not [] h = tt
  All-select_not (x ∷ xs) h = ground (arith, All-select_not xs h.1, h.0)

module _ {ℓ} {A : Type ℓ} where
  pub select-perm :
      (p : A → Bool) {xs ys : List A} → Permᴰ xs ys → Permᴰ (select p xs) (select p ys)
  select-perm p Permᴰ.nil = Permᴰ.nil
  select-perm p (Permᴰ.cons {a} {b} {l₁} {l₂} e q) =
      subst (λ z. Permᴰ (select p (a ∷ l₁)) (select p (z ∷ l₂))) e (go (select-perm p q) (p a))
    where
      go :
          Permᴰ (select p l₁) (select p l₂)
          → (c : Bool)
          → Permᴰ
              (if c then a ∷ select p l₁ else select p l₁)
              (if c then a ∷ select p l₂ else select p l₂)
      go r true = Permᴰ.cons refl r
      go r false = r
  select-perm p (Permᴰ.swap {a} {b} {a'} {b'} {l} e f) =
      subst (λ z. Permᴰ (select p (a ∷ b ∷ l)) (select p (z ∷ b' ∷ l))) f
        (subst (λ z. Permᴰ (select p (a ∷ b ∷ l)) (select p (b ∷ z ∷ l))) e (go (p a) (p b)))
    where
      go :
          (c d : Bool)
          → (let r = select p l in
              Permᴰ
                (if c then a ∷ (if d then b ∷ r else r) else (if d then b ∷ r else r))
                (if d then b ∷ (if c then a ∷ r else r) else (if c then a ∷ r else r)))
      go true true = Permᴰ.swap refl refl
      go true false = Permᴰ.refl _
      go false true = Permᴰ.refl _
      go false false = Permᴰ.refl _
  select-perm p (Permᴰ.trans q r) = Permᴰ.trans (select-perm p q) (select-perm p r)
