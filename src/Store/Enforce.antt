-- ===== src/Store/Enforce.antt =====
-- enforceLimitLocked: what is dropped, what stays, and in which order of last use.
use mathlib.Core.List.Permᴰ
use nft_auth_whitelist.Prelude.{
  ℕ, ◌≤◌, ◌≡◌, refl, sym, ap, ◌∙◌, subst, ◌⊎◌, inl, inr, some, List, [], ◌∷◌, ◌++◌, true, false,
  not, arith, leb, if◌then◌else◌, length, select, All, All-append, All-append_right, All-map,
  All-perm, Permᴰ, Bool-cases, All-select_not,
}
use nft_auth_whitelist.Prelude.Sort.{IsSorted, sort, sort-perm, sort-IsSorted}
use nft_auth_whitelist.Text.{Text}
use nft_auth_whitelist.Clock.{Time}
use nft_auth_whitelist.Dict.{
  Dict, find, HasDistinctKeys, IsKnown, MapOrder, drop_loop, drop_loop-map, drop_loop-hit, hit,
  find-select_key, HasDistinctKeys-perm, HasDistinctKeys-select, IsKnown-self,
}
use nft_auth_whitelist.Signer.{Entry}
use nft_auth_whitelist.Store.Defs.{Store, expired, by_seen, evict_loop, enforce_limit_locked}
use nft_auth_whitelist.Store.Evict.{
  IsSplit, split, limit-le-evict, hit_self, not_hit_kept, by_seen-IsOrder, always,
}

-- A pair that survives, or that was seen no later than every survivor.
abbrev pub KeptOrOldest : Dict Entry → Text × Entry → Type 0
KeptOrOldest r x = (find x.0 r ≡ some x.1) ⊎ All (λ y. by_seen y x ≡ false) r

sorted_split :
    (xs ys : Dict Entry)
    → IsSorted by_seen (xs ++ ys)
    → All (λ x. All (λ y. by_seen y x ≡ false) ys) xs
sorted_split [] ys h = tt
sorted_split (x ∷ xs) ys h = (All-append_right _ xs ys h.0, sorted_split xs ys h.1)

module _ (limit : ℕ) (live visit : Dict Entry) (gone : List Text) (p : Permᴰ visit live)
    (distinct : HasDistinctKeys live) (sorted : IsSorted by_seen visit) where
  abbrev rest : Dict Entry
  rest = (evict_loop limit visit live gone).0

  s : IsSplit limit visit live gone
  s = split limit visit live gone

  abbrev dropped : Dict Entry
  dropped = IsSplit.dropped s

  abbrev kept : Dict Entry
  kept = IsSplit.kept s

  rest-eq : rest ≡ select (λ x. not (hit always dropped x.0)) live
  rest-eq = ap (λ r. r.0) s.same ∙ drop_loop-hit always dropped live gone

  hit_dropped : All (λ x. hit always dropped x.0 ≡ true) dropped
  hit_dropped = hit_self dropped

  -- What is true of the pairs behind the dropped ones is true of the survivors.
  survivors : (P : Text × Entry → Type 0) → All P kept → All P rest
  survivors P h =
      let either : All (λ x. (hit always dropped x.0 ≡ true) ⊎ P x) (dropped ++ kept) =
        All-append _ dropped kept (All-map _ _ dropped (λ x e. inl e) hit_dropped)
          (All-map _ _ kept (λ x e. inr e) h) in
      subst (All P) (sym rest-eq) (
        All-select_not P (λ x. hit always dropped x.0) live
          (All-perm _ p (subst (All _) (sym s.parts) either)))

  evict-length-le : length rest ≤ limit
  evict-length-le = elim s.enough [ inl e ↦ go rest (survivors (λ x. ⊥) (rw e tt)) | inr e ↦ e ]
    where
      go : (r : Dict Entry) → All (λ x. ⊥) r → length r ≤ limit
      go [] h = omega arith
      go (x ∷ r) h = absurd h.0

  known : IsKnown (dropped ++ kept) live
  known = rw (← s.parts) (All-perm _ (Permᴰ.symm p) (IsKnown-self live distinct))

  find-rest :
      (x : Text × Entry)
      → hit always dropped x.0 ≡ false
      → find x.0 live ≡ some x.1
      → find x.0 rest ≡ some x.1
  find-rest x h f =
      rw rest-eq (find-select_key (λ k. not (hit always dropped k)) x.0 live ∙ ground (arith, h, f))

  keep_all :
      (xs : Dict Entry)
      → All (λ x. hit always dropped x.0 ≡ false) xs
      → IsKnown xs live
      → All (KeptOrOldest rest) xs
  keep_all [] h k = tt
  keep_all (x ∷ xs) h k = (inl (find-rest x h.0 k.0), keep_all xs h.1 k.1)

  oldest_all :
      (xs : Dict Entry)
      → All (λ x. All (λ y. by_seen y x ≡ false) kept) xs
      → All (KeptOrOldest rest) xs
  oldest_all [] h = tt
  oldest_all (x ∷ xs) h = (inr (survivors (λ y. by_seen y x ≡ false) h.0), oldest_all xs h.1)

  parts_distinct : HasDistinctKeys (dropped ++ kept)
  parts_distinct = rw (← s.parts) (HasDistinctKeys-perm (Permᴰ.symm p) distinct)

  evict-lru : All (KeptOrOldest rest) live
  evict-lru = All-perm _ p (
      subst (All (KeptOrOldest rest)) (sym s.parts) (
        All-append _ dropped kept
          (oldest_all dropped (sorted_split dropped kept (rw (← s.parts) sorted)))
          (keep_all kept (not_hit_kept dropped kept parts_distinct)
            (All-append_right _ dropped kept known))))

-- The pairs that have not expired.
abbrev pub unexpired : Time → Dict Entry → Dict Entry
unexpired now = select (λ x. not (expired now x.1))

-- What `enforceLimitLocked` leaves of a map, within a limit.
pub record IsEnforced (now : Time) (limit : ℕ) (m : Dict Entry) (r : Dict Entry) : Type 0 where
  -- Under the limit only the expired pairs go.
  pub untouched : length (unexpired now m) ≤ limit → r ≡ unexpired now m
  -- Over the limit exactly as many stay as the limit allows.
  pub full : limit ≤ length (unexpired now m) → length r ≡ limit
  -- Of the unexpired pairs the least recently seen go first.
  pub oldest_first : All (KeptOrOldest r) (unexpired now m)

module _ (ord : MapOrder Entry) (now : Time) (st : Store)
    (distinct : HasDistinctKeys st.entries) where
  abbrev live : Dict Entry
  live = unexpired now st.entries

  dropped_live : (drop_loop (expired now) (ord.order 0 st.entries) st.entries []).0 ≡ live
  dropped_live = drop_loop-map (expired now) [] (ord.order-perm 0 st.entries) distinct

  abbrev ordered : Dict Entry
  ordered = sort by_seen (ord.order 1 live)

  abbrev purged : List Text
  purged = (drop_loop (expired now) (ord.order 0 st.entries) st.entries []).1

  enforce-eq : (enforce_limit_locked ord now st).0.entries ≡ (
      if leb (length live) st.max_entries
      then live
      else (evict_loop st.max_entries ordered live purged).0)
  unfolding enforce_limit_locked
  enforce-eq = ground (arith, dropped_live)

  ordered-perm : Permᴰ ordered live
  ordered-perm = Permᴰ.trans (sort-perm by_seen _) (ord.order-perm 1 live)

  live-distinct : HasDistinctKeys live
  live-distinct = HasDistinctKeys-select _ st.entries distinct

  -- On a map with distinct keys enforceLimitLocked drops the expired pairs alone if the others are
  -- within the limit, and otherwise leaves exactly as many pairs as the limit allows; and an
  -- unexpired pair that is gone was not seen later than any pair that stays.
  pub enforce_limit_locked-IsEnforced :
      IsEnforced now st.max_entries st.entries (enforce_limit_locked ord now st).0.entries
  enforce_limit_locked-IsEnforced = elim (Bool-cases (leb (length live) st.max_entries)) [
    | inl e ↦
        rw (enforce-eq, e)
          (record {
            untouched = λ h. refl;
            full = λ h. ground arith;
            oldest_first =
                All-map _ (KeptOrOldest live) live (λ x h. inl h) (IsKnown-self live live-distinct);
          })
    | inr e ↦
        let sorted = sort-IsSorted by_seen-IsOrder (ord.order 1 live) in
        let le =
          evict-length-le st.max_entries live ordered purged ordered-perm live-distinct sorted in
        rw (enforce-eq, e)
          (record {
            untouched = λ h. absurd (ground arith);
            full = λ h.
                omega
                  (arith, le, limit-le-evict st.max_entries ordered live purged live-distinct h);
            oldest_first =
                evict-lru st.max_entries live ordered purged ordered-perm live-distinct sorted;
          })
  ]
