-- ===== src/Store/Evict.antt =====
-- enforceLimitLocked: what is dropped, what stays, and in which order of last use.

use nft_auth_whitelist.Prelude.{
  ℕ, ◌≤◌, ◌≡◌, refl, ap, ◌⊎◌, inl, inr, List, [], ◌∷◌, ◌++◌, Bool, true, false, arith, ltb, length,
  All, Bool-cases,
}
use nft_auth_whitelist.Prelude.Sort.{IsOrder}
use nft_auth_whitelist.Text.{Text, text_eq, text_eq_refl}
use nft_auth_whitelist.Dict.{
  Dict, delete, HasDistinctKeys, drop_loop, hit, HasDistinctKeys-delete, length-delete,
}
use nft_auth_whitelist.Signer.{Entry}
use nft_auth_whitelist.Store.Defs.{by_seen, evict_loop}

pub by_seen-IsOrder : IsOrder by_seen
unfolding by_seen
by_seen-IsOrder = record { asym = λ a b h. ground arith; between = λ a b c h k. ground arith }

abbrev pub always : Entry → Bool
always e = true

-- The loop deletes a front part of its list, as the loop over dead pairs does.
pub record IsSplit (limit : ℕ) (visit m : Dict Entry) (gone : List Text) : Type 0 where
  pub dropped : Dict Entry
  pub kept : Dict Entry
  pub parts : visit ≡ dropped ++ kept
  pub same : evict_loop limit visit m gone ≡ drop_loop always dropped m gone
  pub enough : (kept ≡ []) ⊎ (length (evict_loop limit visit m gone).0 ≤ limit)

pub split : (limit : ℕ) (visit m : Dict Entry) (gone : List Text) → IsSplit limit visit m gone
unfolding evict_loop drop_loop
split limit [] m gone = record {
  dropped = [];
  kept = [];
  parts = refl;
  same = refl;
  enough = inl refl;
}
split limit (x ∷ rest) m gone = elim (Bool-cases (ltb limit (length m))) [
  | inl e ↦
      let s = split limit rest (delete x.0 m) (gone ++ x.0 ∷ []) in
      record {
        dropped = x ∷ s.dropped;
        kept = s.kept;
        parts = ap (◌∷◌ x) s.parts;
        same = rw e s.same;
        enough = rw e s.enough;
      }
  | inr e ↦ record {
    dropped = [];
    kept = x ∷ rest;
    parts = refl;
    same = rw e;
    enough = rw e (inr (ground arith));
  }
]

-- It never goes below the limit.
pub limit-le-evict :
    (limit : ℕ) (visit m : Dict Entry) (gone : List Text)
    → HasDistinctKeys m
    → limit ≤ length m
    → limit ≤ length (evict_loop limit visit m gone).0
unfolding evict_loop
limit-le-evict limit [] m gone h le = le
limit-le-evict limit (x ∷ rest) m gone h le = elim (Bool-cases (ltb limit (length m))) [
  | inl e ↦ rw e (
      limit-le-evict limit rest (delete x.0 m) (gone ++ x.0 ∷ []) (HasDistinctKeys-delete x.0 m h)
        (ground (arith, length-delete x.0 m h)))
  | inr e ↦ rw e le
]

pub hit_self : (dropped : Dict Entry) → All (λ x. hit always dropped x.0 ≡ true) dropped
unfolding hit
hit_self [] = tt
hit_self (x ∷ xs) = (rw text_eq_refl, more xs (hit_self xs))
  where
    more :
        (ys : Dict Entry)
        → All (λ y. hit always xs y.0 ≡ true) ys
        → All (λ y. hit always (x ∷ xs) y.0 ≡ true) ys
    more [] h = tt
    more (y ∷ ys) h = (ground (arith, h.0), more ys h.1)

-- With distinct keys the pairs behind the dropped ones are not hit.
pub not_hit_kept :
    (dropped kept : Dict Entry)
    → HasDistinctKeys (dropped ++ kept)
    → All (λ x. hit always dropped x.0 ≡ false) kept
unfolding hit
not_hit_kept [] kept h = all kept
  where
    all : (ys : Dict Entry) → All (λ y. hit always [] y.0 ≡ false) ys
    all [] = tt
    all (y ∷ ys) = (refl, all ys)
not_hit_kept (x ∷ xs) kept h = go kept (behind xs h.0) (not_hit_kept xs kept h.1)
  where
    behind :
        (ys : Dict Entry)
        → All (λ e. text_eq x.0 e.0 ≡ false) (ys ++ kept)
        → All (λ e. text_eq x.0 e.0 ≡ false) kept
    behind [] a = a
    behind (y ∷ ys) a = behind ys a.1

    go :
        (ys : Dict Entry)
        → All (λ e. text_eq x.0 e.0 ≡ false) ys
        → All (λ y. hit always xs y.0 ≡ false) ys
        → All (λ y. hit always (x ∷ xs) y.0 ≡ false) ys
    go [] a b = tt
    go (y ∷ ys) a b = (ground (arith, a.0, b.0), go ys a.1 b.1)
