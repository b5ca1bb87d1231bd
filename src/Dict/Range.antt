-- ===== src/Dict/Range.antt =====
-- `range` over a map visits each pair once, in an order that Go leaves open, and the loops that
-- delete pairs while they range.
use nft_auth_whitelist.Prelude.{
  ℕ, some, List, [], ◌∷◌, ◌++◌, ◌≡◌, none, refl, sym, ap, ◌∙◌, Bool, true, false, not, ◌&&◌, ◌||◌,
  inl, inr, arith, if◌then◌else◌, All, All-select, Permᴰ, select, Bool-cases,
}
use mathlib.Core.List.{append-nil, append_assoc}
use mathlib.Core.List.Permᴰ
use nft_auth_whitelist.Text.{Text, text_eq, text_eq_iff, text_eq_refl, text_eq_comm}
use nft_auth_whitelist.Dict.Defs.{Dict, keys, find, delete, HasDistinctKeys, IsKnown}
use nft_auth_whitelist.Dict.Laws.{find-perm, IsKnown-self, HasDistinctKeys-perm}

-- The order of the n-th `range` of an operation.
pub record MapOrder {ℓ} (V : Type ℓ) : Type ℓ where
  pub order : ℕ → Dict V → Dict V
  pub order-perm : (n : ℕ) (m : Dict V) → Permᴰ (order n m) m

module _ {ℓ} {V : Type ℓ} where
  -- The loop `for k, e := range m { if dead(e) { delete(m, k); gone = append(gone, k) } }` from the
  -- pairs still to visit, the map and what was collected.
  unfoldable pub drop_loop : (V → Bool) → Dict V → Dict V → List Text → Dict V × List Text
  drop_loop dead [] m gone = (m, gone)
  drop_loop dead ((k, e) ∷ rest) m gone =
      drop_loop dead rest (if dead e then delete k m else m)
        (if dead e then gone ++ k ∷ [] else gone)

  gone_cases :
      (b : Bool) (gone : List Text) (k : Text) (e : V) (rest : Dict V)
      → (if b then gone ++ k ∷ [] else gone) ++ keys rest
        ≡ gone ++ keys (if b then (k, e) ∷ rest else rest)
  gone_cases true gone k e rest = append_assoc gone (k ∷ []) (keys rest)
  gone_cases false gone k e rest = refl

  -- The loop returns the keys of the dead pairs, in the order of the visit.
  pub drop_loop-gone :
      (dead : V → Bool) (visit m : Dict V) (gone : List Text)
      → (drop_loop dead visit m gone).1 ≡ gone ++ keys (select (λ e. dead e.1) visit)
  unfolding drop_loop
  drop_loop-gone dead [] m gone = sym (append-nil gone)
  drop_loop-gone dead ((k, e) ∷ rest) m gone =
      drop_loop-gone dead rest (if dead e then delete k m else m)
        (if dead e then gone ++ k ∷ [] else gone)
      ∙ gone_cases (dead e) gone k e (select (λ x. dead x.1) rest)

  -- The key is that of a dead pair of the list.
  unfoldable pub hit : (V → Bool) → Dict V → Text → Bool
  hit dead [] k = false
  hit dead ((j, e) ∷ rest) k = dead e && text_eq j k || hit dead rest k

  select-delete :
      (k : Text) (p : Text × V → Bool) (m : Dict V)
      → select p (delete k m) ≡ select (λ x. not (text_eq k x.0) && p x) m
  unfolding delete
  select-delete k p [] = refl
  select-delete k p ((j, w) ∷ m) = ground (arith, select-delete k p m, text_eq_comm k j)

  select-true : (m : Dict V) → select (λ x. true) m ≡ m
  select-true [] = refl
  select-true (x ∷ m) = ap (◌∷◌ x) (select-true m)

  pub select-ext :
      (p q : Text × V → Bool) (m : Dict V) → All (λ x. p x ≡ q x) m → select p m ≡ select q m
  select-ext p q [] h = refl
  select-ext p q (x ∷ m) h = ground (arith, select-ext p q m h.1)

  All-pure : (P : Text × V → Type 0) (m : Dict V) → ((x : Text × V) → P x) → All P m
  All-pure P [] h = tt
  All-pure P (x ∷ m) h = (h x, All-pure P m h)

  select_cases :
      (dead : V → Bool) (k : Text) (e : V) (m : Dict V) (h : Text × V → Bool)
      → select (λ x. not (h x)) (if dead e then delete k m else m)
        ≡ select (λ x. not (dead e && text_eq k x.0 || h x)) m
  select_cases dead k e m h = elim (Bool-cases (dead e)) [
    | inl d ↦
        rw d
          (select-delete k (λ x. not (h x)) m ∙ select-ext _ _ m (All-pure _ m (λ x. ground arith)))
    | inr d ↦ rw d
  ]

  pub drop_loop-hit :
      (dead : V → Bool) (visit m : Dict V) (gone : List Text)
      → (drop_loop dead visit m gone).0 ≡ select (λ x. not (hit dead visit x.0)) m
  unfolding drop_loop hit
  drop_loop-hit dead [] m gone = sym (select-true m)
  drop_loop-hit dead ((k, e) ∷ rest) m gone =
      drop_loop-hit dead rest (if dead e then delete k m else m)
        (if dead e then gone ++ k ∷ [] else gone)
      ∙ select_cases dead k e m (λ x. hit dead rest x.0)

  pub hit_none :
      (dead : V → Bool) (visit : Dict V) (k : Text)
      → All (λ x. text_eq k x.0 ≡ false) visit
      → hit dead visit k ≡ false
  unfolding hit
  hit_none dead [] k h = refl
  hit_none dead ((j, w) ∷ rest) k h =
      ground (arith, hit_none dead rest k h.1, text_eq_comm j k, h.0)

  hit-find :
      (dead : V → Bool) (visit : Dict V) (k : Text) (e : V)
      → HasDistinctKeys visit
      → find k visit ≡ some e
      → hit dead visit k ≡ dead e
  unfolding hit find
  hit-find dead [] k e h f = cc
  hit-find dead ((j, w) ∷ rest) k e h f = elim (Bool-cases (text_eq j k)) [
    | inl s ↦
        let miss = hit_none dead rest j h.0 in
        let same : j ≡ k = (text_eq_iff j k).0 s in ground (arith, same)
    | inr s ↦ ground (arith, hit-find dead rest k e h.1)
  ]

  not-hit :
      (dead : V → Bool) (visit m : Dict V)
      → HasDistinctKeys visit
      → IsKnown m visit
      → All (λ x. not (hit dead visit x.0) ≡ not (dead x.1)) m
  not-hit dead visit [] h k = tt
  not-hit dead visit (x ∷ m) h k =
      (ap not (hit-find dead visit x.0 x.1 h k.0), not-hit dead visit m h k.1)

  IsKnown-perm :
      (xs : Dict V) {m n : Dict V} → Permᴰ m n → HasDistinctKeys m → IsKnown xs m → IsKnown xs n
  IsKnown-perm [] p h k = tt
  IsKnown-perm (x ∷ xs) p h k = (sym (find-perm x.0 p h) ∙ k.0, IsKnown-perm xs p h k.1)

  -- Whatever the order of the visit, the loop leaves the pairs that are not dead.
  pub drop_loop-map :
      (dead : V → Bool) {visit m : Dict V} (gone : List Text)
      → Permᴰ visit m
      → HasDistinctKeys m
      → (drop_loop dead visit m gone).0 ≡ select (λ x. not (dead x.1)) m
  drop_loop-map dead {visit} {m} gone p h =
      drop_loop-hit dead visit m gone
      ∙ select-ext _ _ m (
          not-hit dead visit m (HasDistinctKeys-perm (Permᴰ.symm p) h)
            (IsKnown-perm m (Permᴰ.symm p) h (IsKnown-self m h)))

  -- A selection by the key is seen by a lookup.
  pub find-select_key :
      (q : Text → Bool) (k : Text) (m : Dict V)
      → find k (select (λ x. q x.0) m) ≡ (if q k then find k m else none)
  unfolding find
  find-select_key q k [] = ground arith
  find-select_key q k ((j, w) ∷ m) = ground (arith, find-select_key q k m, text_eq_iff j k)

  pub HasDistinctKeys-select :
      (p : Text × V → Bool) (m : Dict V) → HasDistinctKeys m → HasDistinctKeys (select p m)
  HasDistinctKeys-select p [] h = h
  HasDistinctKeys-select p (x ∷ m) h = elim (Bool-cases (p x)) [
    | inl e ↦ rw e (All-select _ p m h.0, HasDistinctKeys-select p m h.1)
    | inr e ↦ rw e (HasDistinctKeys-select p m h.1)
  ]

  -- With distinct keys a lookup sees a selection by the whole pair.
  pub find-select :
      (p : Text × V → Bool) (k : Text) (e : V) (m : Dict V)
      → find k m ≡ some e
      → p (k, e) ≡ true
      → find k (select p m) ≡ some e
  unfolding find
  find-select p k e [] f t = cc
  find-select p k e ((j, w) ∷ m) f t = elim (Bool-cases (text_eq j k)) [
    | inl s ↦
        let j' : j ≡ k = (text_eq_iff j k).0 s in
        let w' : w ≡ e = ground (arith, s) in rw (j', w', t, text_eq_refl)
    | inr s ↦ ground (arith, s, find-select p k e m)
  ]

module _ {ℓ κ} {V : Type ℓ} (P : Text × V → Type κ) where
  -- What is true of all pairs is true of the one that is found.
  pub All-find : (k : Text) (e : V) (m : Dict V) → All P m → find k m ≡ some e → P (k, e)
  unfolding find
  All-find k e [] h f = cc
  All-find k e ((j, w) ∷ m) h f = elim (Bool-cases (text_eq j k)) [
    | inl s ↦
        let j' : j ≡ k = (text_eq_iff j k).0 s in
        let w' : w ≡ e = ground (arith, s) in rw (← j', ← w') h.0
    | inr s ↦ All-find k e m h.1 (ground (arith, s))
  ]
