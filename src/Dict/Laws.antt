-- ===== src/Dict/Laws.antt =====
-- The laws of lookup, assignment and `delete`; a lookup does not see the order of the pairs.
use nft_auth_whitelist.Prelude.{
  ◌+◌, ◌≤◌, none, some, [], ◌∷◌, ◌≡◌, refl, subst, ◌∙◌, false, inl, inr, arith, if◌then◌else◌, All,
  All-perm, Permᴰ, length, Bool-cases,
}
use nft_auth_whitelist.Text.{Text, text_eq, text_eq_iff, text_eq_refl, text_eq_comm}
use nft_auth_whitelist.Dict.Defs.{Dict, find, put, delete, HasDistinctKeys, IsKnown}

module _ {ℓ} {V : Type ℓ} where
  pub find-put :
      (j k : Text) (v : V) (m : Dict V)
      → find j (put k v m) ≡ (if text_eq k j then some v else find j m)
  unfolding find put
  find-put j k v [] = refl
  find-put j k v ((i, w) ∷ m) =
      ground (arith, text_eq_iff k j, text_eq_iff i k, text_eq_iff i j, find-put j k v m)

  pub find-delete :
      (j k : Text) (m : Dict V) → find j (delete k m) ≡ (if text_eq k j then none else find j m)
  unfolding find delete
  find-delete j k [] = ground arith
  find-delete j k ((i, w) ∷ m) =
      ground (arith, text_eq_iff k j, text_eq_iff i k, text_eq_iff i j, find-delete j k m)

  pub length-put-le : (k : Text) (v : V) (m : Dict V) → length (put k v m) ≤ length m + 1
  unfolding put
  length-put-le k v [] = omega arith
  length-put-le k v ((i, w) ∷ m) = ground (arith, length-put-le k v m)

  -- An assignment to a key that is there changes no length.
  pub length-put_found :
      (k : Text) (v w : V) (m : Dict V) → find k m ≡ some w → length (put k v m) ≡ length m
  unfolding put find
  length-put_found k v w [] h = cc
  length-put_found k v w ((i, u) ∷ m) h = ground (arith, length-put_found k v w m)

  module _ {κ} (P : Text × V → Type κ) where
    pub All-put :
        (k : Text) (v : V) (m : Dict V)
        → ((j : Text) → j ≡ k → P (j, v))
        → All P m
        → All P (put k v m)
    unfolding put
    All-put k v [] h a = (h k refl, tt)
    All-put k v ((i, w) ∷ m) h a = elim (Bool-cases (text_eq i k)) [
      | inl e ↦ rw e (h i ((text_eq_iff i k).0 e), a.1)
      | inr e ↦ rw e (a.0, All-put k v m h a.1)
    ]

    pub All-delete : (k : Text) (m : Dict V) → All P m → All P (delete k m)
    unfolding delete
    All-delete k [] a = a
    All-delete k ((i, w) ∷ m) a = elim (Bool-cases (text_eq i k)) [
      | inl e ↦ rw e (All-delete k m a.1)
      | inr e ↦ rw e (a.0, All-delete k m a.1)
    ]

  pub HasDistinctKeys-put :
      (k : Text) (v : V) (m : Dict V) → HasDistinctKeys m → HasDistinctKeys (put k v m)
  unfolding put
  HasDistinctKeys-put k v [] h = (tt, tt)
  HasDistinctKeys-put k v ((i, w) ∷ m) h = elim (Bool-cases (text_eq i k)) [
    | inl e ↦ rw e h
    | inr e ↦ rw e (
      All-put (λ x. text_eq i x.0 ≡ false) k v m (λ j p. rw p e) h.0,
      HasDistinctKeys-put k v m h.1,
    )
  ]

  pub HasDistinctKeys-delete :
      (k : Text) (m : Dict V) → HasDistinctKeys m → HasDistinctKeys (delete k m)
  unfolding delete
  HasDistinctKeys-delete k [] h = h
  HasDistinctKeys-delete k ((i, w) ∷ m) h = elim (Bool-cases (text_eq i k)) [
    | inl e ↦ rw e (HasDistinctKeys-delete k m h.1)
    | inr e ↦ rw e (All-delete (λ x. text_eq i x.0 ≡ false) k m h.0, HasDistinctKeys-delete k m h.1)
  ]

  pub HasDistinctKeys-perm :
      {xs ys : Dict V} → Permᴰ xs ys → HasDistinctKeys xs → HasDistinctKeys ys
  HasDistinctKeys-perm Permᴰ.nil h = h
  HasDistinctKeys-perm (Permᴰ.cons {a} {b} {l₁} {l₂} e p) h = (
    subst (λ z. All (λ x. text_eq z.0 x.0 ≡ false) l₂) e (All-perm _ p h.0),
    HasDistinctKeys-perm p h.1,
  )
  HasDistinctKeys-perm (Permᴰ.swap {a} {b} {a'} {b'} {l} e f) h =
      subst (λ z. HasDistinctKeys (z ∷ b' ∷ l)) f
        (subst (λ z. HasDistinctKeys (b ∷ z ∷ l)) e
          ((text_eq_comm b.0 a.0 ∙ h.0.0, h.1.0), (h.0.1, h.1.1)))
  HasDistinctKeys-perm (Permᴰ.trans p q) h = HasDistinctKeys-perm q (HasDistinctKeys-perm p h)

  pub find-perm :
      {xs ys : Dict V} (k : Text) → Permᴰ xs ys → HasDistinctKeys xs → find k xs ≡ find k ys
  unfolding find
  find-perm k Permᴰ.nil h = refl
  find-perm k (Permᴰ.cons {a} {b} {l₁} {l₂} e p) h = cc (e, find-perm k p h.1)
  find-perm k (Permᴰ.swap {a} {b} {a'} {b'} {l} e f) h =
      let e' : a.0 ≡ b'.0 = cc in
      let f' : b.0 ≡ a'.0 = cc in
      rw (← e, ← f)
        (ground (arith, text_eq_iff a.0 k, text_eq_iff b.0 k, text_eq_iff a.0 b.0, h.0.0))
  find-perm k (Permᴰ.trans p q) h = find-perm k p h ∙ find-perm k q (HasDistinctKeys-perm p h)

  skip :
      (k : Text) (v : V) (xs m : Dict V)
      → All (λ e. text_eq k e.0 ≡ false) xs
      → IsKnown xs m
      → IsKnown xs ((k, v) ∷ m)
  unfolding find
  skip k v [] m h a = tt
  skip k v (x ∷ xs) m h a = (rw h.0 a.0, skip k v xs m h.1 a.1)

  pub IsKnown-self : (m : Dict V) → HasDistinctKeys m → IsKnown m m
  unfolding find
  IsKnown-self [] h = tt
  IsKnown-self ((k, v) ∷ m) h = (rw text_eq_refl, skip k v m m h.0 (IsKnown-self m h.1))

  delete_absent : (k : Text) (m : Dict V) → All (λ x. text_eq k x.0 ≡ false) m → delete k m ≡ m
  unfolding delete
  delete_absent k [] h = refl
  delete_absent k ((i, w) ∷ m) h = ground (arith, delete_absent k m h.1, text_eq_comm i k, h.0)

  -- `delete` takes away one pair at most.
  pub length-delete :
      (k : Text) (m : Dict V) → HasDistinctKeys m → length m ≤ length (delete k m) + 1
  unfolding delete
  length-delete k [] h = omega arith
  length-delete k ((i, w) ∷ m) h = elim (Bool-cases (text_eq i k)) [
    | inl e ↦
        let same : i ≡ k = (text_eq_iff i k).0 e in
        rw (e, delete_absent k m (subst (λ j. All (λ x. text_eq j x.0 ≡ false) m) same h.0))
          (omega arith)
    | inr e ↦ rw e (omega (arith, length-delete k m h.1))
  ]
