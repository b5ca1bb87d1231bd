-- ===== src/Pipeline/Lines.antt =====
-- The lines of allow.txt: sorting and dedup leave each CIDR once, in ascending order.
use nft_auth_whitelist.Prelude.{
  List, [], ◌∷◌, ◌++◌, ◌≡◌, refl, ap, ◌∙◌, Bool, true, false, ◌||◌, inl, inr, arith, All, Permᴰ,
  Bool-cases,
}
use nft_auth_whitelist.Prelude.Sort.{IsSorted, IsStrict, sort, sort-perm, sort-IsSorted}
use nft_auth_whitelist.Text.{
  Text, text_eq, text_lt, text_eq_iff, text_ne, text_lt-IsOrder, text_lt_total,
}
use nft_auth_whitelist.Pipeline.Defs.{dedup, dedup_from}

-- The text is one of the list.
unfoldable pub has : Text → List Text → Bool
has c [] = false
has c (x ∷ xs) = text_eq x c || has c xs

pub has-append : (c : Text) (xs ys : List Text) → has c (xs ++ ys) ≡ has c xs || has c ys
unfolding has
has-append c [] ys = refl
has-append c (x ∷ xs) ys = ground (arith, has-append c xs ys)

has-perm : (c : Text) {xs ys : List Text} → Permᴰ xs ys → has c xs ≡ has c ys
unfolding has
has-perm c Permᴰ.nil = refl
has-perm c (Permᴰ.cons {a} {b} e p) = ground (arith, ap (λ x. text_eq x c) e, has-perm c p)
has-perm c (Permᴰ.swap e f) = ground (arith, ap (λ x. text_eq x c) e, ap (λ x. text_eq x c) f)
has-perm c (Permᴰ.trans p q) = has-perm c p ∙ has-perm c q

has-dedup_from :
    (c last : Text) (xs : List Text)
    → text_eq last c || has c (dedup_from last xs) ≡ text_eq last c || has c xs
unfolding dedup_from has
has-dedup_from c last [] = refl
has-dedup_from c last (s ∷ rest) = elim (Bool-cases (text_eq s last)) [
  | inl e ↦
      let same = ap (λ x. text_eq x c) ((text_eq_iff s last).0 e) in
      ground (arith, e, same, has-dedup_from c last rest)
  | inr e ↦ ground (arith, e, has-dedup_from c s rest)
]

has-dedup : (c : Text) (xs : List Text) → has c (dedup xs) ≡ has c xs
unfolding dedup has
has-dedup c [] = refl
has-dedup c (s ∷ rest) = has-dedup_from c s rest

lt_trans :
    (a b : Text) (ys : List Text)
    → text_lt a b ≡ true
    → All (λ y. text_lt b y ≡ true) ys
    → All (λ y. text_lt a y ≡ true) ys
lt_trans a b [] h k = tt
lt_trans a b (y ∷ ys) h k =
    (text_lt-IsOrder.between a b y h (text_lt-IsOrder.asym b y k.0), lt_trans a b ys h k.1)

dedup_from-IsStrict :
    (last : Text) (xs : List Text)
    → All (λ y. text_lt y last ≡ false) xs
    → IsSorted text_lt xs
    → IsStrict text_lt (last ∷ dedup_from last xs)
unfolding dedup_from
dedup_from-IsStrict last [] h k = (tt, tt)
dedup_from-IsStrict last (s ∷ rest) h k = elim (Bool-cases (text_eq s last)) [
  | inl e ↦ rw e (dedup_from-IsStrict last rest h.1 k.1)
  | inr e ↦
      let more = dedup_from-IsStrict s rest k.0 k.1 in
      let lt : text_lt last s ≡ true =
        ground (arith, text_lt_total s last (text_ne s last e), h.0) in
      rw e ((lt, lt_trans last s (dedup_from s rest) lt more.0), more)
]

dedup-IsStrict : (xs : List Text) → IsSorted text_lt xs → IsStrict text_lt (dedup xs)
unfolding dedup
dedup-IsStrict [] h = tt
dedup-IsStrict (s ∷ rest) h = dedup_from-IsStrict s rest h.0 h.1

abbrev pub lines : List Text → List Text
lines cs = dedup (sort text_lt cs)

pub lines-IsStrict : (cs : List Text) → IsStrict text_lt (lines cs)
lines-IsStrict cs = dedup-IsStrict _ (sort-IsSorted text_lt-IsOrder cs)

pub has-lines : (c : Text) (cs : List Text) → has c (lines cs) ≡ has c cs
has-lines c cs = has-dedup c (sort text_lt cs) ∙ has-perm c (sort-perm text_lt cs)
