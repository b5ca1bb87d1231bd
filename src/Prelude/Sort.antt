-- ===== src/Prelude/Sort.antt =====
-- Go's `sort.Slice` and `sort.Strings`: a sort by a test "less". Go's sort may put equal items in
-- any order; the model keeps their order, and the callers take an arbitrary order as an argument.
use mathlib.Core.Path.{◌≡◌, refl, subst, ◌∙◌}
use mathlib.Core.Logic.{◌⊎◌, inl, inr}
use mathlib.Core.Bool.{Bool, true, false}
use mathlib.Core.List.{List, [], ◌∷◌, Permᴰ}
use mathlib.Core.List.Permᴰ
use native.Mathlib.Omega.{arith}
use nft_auth_whitelist.Prelude.Tests.{if◌then◌else◌, Bool-cases}
use nft_auth_whitelist.Prelude.Lists.{All, All-perm, length, length-perm}

-- A test that orders: never both ways, and what lies between is told apart from one end.
pub record IsOrder {ℓ} {A : Type ℓ} (less : A → A → Bool) : Type ℓ where
  pub asym : (a b : A) → less a b ≡ true → less b a ≡ false
  pub between : (a b c : A) → less a b ≡ true → less c b ≡ false → less a c ≡ true

module _ {ℓ} {A : Type ℓ} (less : A → A → Bool) where
  unfoldable pub insert : A → List A → List A
  insert x [] = x ∷ []
  insert x (y ∷ ys) = if less y x then y ∷ insert x ys else x ∷ y ∷ ys

  unfoldable pub sort : List A → List A
  unfolding insert
  sort [] = []
  sort (x ∷ xs) = insert x (sort xs)

  -- No later member is less than an earlier one.
  abbrev pub IsSorted : List A → Type 0
  IsSorted [] = Unit
  IsSorted (x ∷ xs) = All (λ y. less y x ≡ false) xs × IsSorted xs

  -- Each member is less than all later ones.
  abbrev pub IsStrict : List A → Type 0
  IsStrict [] = Unit
  IsStrict (x ∷ xs) = All (λ y. less x y ≡ true) xs × IsStrict xs

  -- Any two members are told apart.
  abbrev pub AreApart : List A → Type 0
  AreApart [] = Unit
  AreApart (x ∷ xs) = All (λ y. (less x y ≡ true) ⊎ (less y x ≡ true)) xs × AreApart xs

module _ {ℓ} {A : Type ℓ} (less : A → A → Bool) where
  insert-perm : (x : A) (ys : List A) → Permᴰ (insert less x ys) (x ∷ ys)
  unfolding insert
  insert-perm x [] = Permᴰ.refl _
  insert-perm x (y ∷ ys) = elim (Bool-cases (less y x)) [
    | inl e ↦ rw e (Permᴰ.trans (Permᴰ.cons refl (insert-perm x ys)) (Permᴰ.swap refl refl))
    | inr e ↦ rw e (Permᴰ.refl _)
  ]

  pub sort-perm : (xs : List A) → Permᴰ (sort less xs) xs
  unfolding sort
  sort-perm [] = Permᴰ.nil
  sort-perm (x ∷ xs) = Permᴰ.trans (insert-perm x (sort less xs)) (Permᴰ.cons refl (sort-perm xs))

  pub length-sort : (xs : List A) → length (sort less xs) ≡ length xs
  length-sort xs = length-perm (sort-perm xs)

module _ {ℓ} {A : Type ℓ} {less : A → A → Bool} (o : IsOrder less) where
  not_less_trans : (a b c : A) → less b a ≡ false → less c b ≡ false → less c a ≡ false
  not_less_trans a b c h k = elim (Bool-cases (less c a)) [
    | inl e ↦ cc (o.between c a b e h)
    | inr e ↦ e
  ]

  below_all :
      (a b : A) (xs : List A)
      → less b a ≡ false
      → All (λ y. less y b ≡ false) xs
      → All (λ y. less y a ≡ false) xs
  below_all a b [] h k = tt
  below_all a b (x ∷ xs) h k = (not_less_trans a b x h k.0, below_all a b xs h k.1)

  insert-IsSorted : (x : A) (ys : List A) → IsSorted less ys → IsSorted less (insert less x ys)
  unfolding insert
  insert-IsSorted x [] h = (tt, tt)
  insert-IsSorted x (y ∷ ys) h = elim (Bool-cases (less y x)) [
    | inl e ↦ rw e (
      All-perm _ (Permᴰ.symm (insert-perm less x ys)) (o.asym y x e, h.0),
      insert-IsSorted x ys h.1,
    )
    | inr e ↦ rw e ((e, below_all x y ys e h.0), h)
  ]

  pub sort-IsSorted : (xs : List A) → IsSorted less (sort less xs)
  unfolding sort
  sort-IsSorted [] = tt
  sort-IsSorted (x ∷ xs) = insert-IsSorted x (sort less xs) (sort-IsSorted xs)

  IsStrict-of_apart : (xs : List A) → IsSorted less xs → AreApart less xs → IsStrict less xs
  IsStrict-of_apart [] h k = tt
  IsStrict-of_apart (x ∷ xs) h k = (go xs h.0 k.0, IsStrict-of_apart xs h.1 k.1)
    where
      go :
          (ys : List A)
          → All (λ y. less y x ≡ false) ys
          → All (λ y. (less x y ≡ true) ⊎ (less y x ≡ true)) ys
          → All (λ y. less x y ≡ true) ys
      go [] p q = tt
      go (y ∷ ys) p q = (ground arith, go ys p.1 q.1)

  pub AreApart-perm : {xs ys : List A} → Permᴰ xs ys → AreApart less xs → AreApart less ys
  AreApart-perm Permᴰ.nil h = h
  AreApart-perm (Permᴰ.cons {a} {b} {l₁} {l₂} e p) h = (
    subst (λ z. All (λ y. (less z y ≡ true) ⊎ (less y z ≡ true)) l₂) e (All-perm _ p h.0),
    AreApart-perm p h.1,
  )
  AreApart-perm (Permᴰ.swap {a} {b} {a'} {b'} {l} e f) h =
      subst (λ z. AreApart less (z ∷ b' ∷ l)) f
        (subst (λ z. AreApart less (b ∷ z ∷ l)) e ((other h.0.0, h.1.0), (h.0.1, h.1.1)))
    where
      other : (less a b ≡ true) ⊎ (less b a ≡ true) → (less b a ≡ true) ⊎ (less a b ≡ true)
      other (inl p) = inr p
      other (inr p) = inl p
  AreApart-perm (Permᴰ.trans p q) h = AreApart-perm q (AreApart-perm p h)

  -- With all members told apart the sorted list ascends strictly.
  pub sort-IsStrict : (xs : List A) → AreApart less xs → IsStrict less (sort less xs)
  sort-IsStrict xs h =
      IsStrict-of_apart _ (sort-IsSorted xs) (AreApart-perm (Permᴰ.symm (sort-perm less xs)) h)

  insert_comm :
      (a b : A) (l : List A)
      → (less a b ≡ true) ⊎ (less b a ≡ true)
      → insert less a (insert less b l) ≡ insert less b (insert less a l)
  unfolding insert
  insert_comm a b [] h = ground (arith, o.asym a b, o.asym b a)
  insert_comm a b (y ∷ ys) h =
      ground (arith, o.asym a b, o.asym b a, o.between y a b, o.between y b a, insert_comm a b ys h)

  -- So the sorted list does not depend on the order of what is sorted.
  pub sort-perm-eq : {xs ys : List A} → Permᴰ xs ys → AreApart less xs → sort less xs ≡ sort less ys
  unfolding sort
  sort-perm-eq Permᴰ.nil h = refl
  sort-perm-eq (Permᴰ.cons e p) h = cc (e, sort-perm-eq p h.1)
  sort-perm-eq (Permᴰ.swap {a} {b} {a'} {b'} {l} e f) h =
      cc (e, f, insert_comm a b (sort less l) h.0.0)
  sort-perm-eq (Permᴰ.trans p q) h = sort-perm-eq p h ∙ sort-perm-eq q (AreApart-perm p h)

  -- Where different members are always told apart, no condition is left.
  module _ (total : (a b : A) → (a ≡ b) ⊎ ((less a b ≡ true) ⊎ (less b a ≡ true))) where
    swap_total :
        (a b : A) (l : List A) → insert less a (insert less b l) ≡ insert less b (insert less a l)
    swap_total a b l = elim (total a b) [ inl e ↦ cc (e) | inr h ↦ insert_comm a b l h ]

    pub sort-perm-eq_total : {xs ys : List A} → Permᴰ xs ys → sort less xs ≡ sort less ys
    unfolding sort
    sort-perm-eq_total Permᴰ.nil = refl
    sort-perm-eq_total (Permᴰ.cons e p) = cc (e, sort-perm-eq_total p)
    sort-perm-eq_total (Permᴰ.swap {a} {b} {a'} {b'} {l} e f) =
        cc (e, f, swap_total a b (sort less l))
    sort-perm-eq_total (Permᴰ.trans p q) = sort-perm-eq_total p ∙ sort-perm-eq_total q
