-- ===== src/Store/Recording.antt =====
-- Record and Purge: the invariant, the limit, and what becomes of the recorded address.
use nft_auth_whitelist.Prelude.{
  ℕ, ◌≤◌, ◌<◌, ◌≡◌, refl, sym, ap, ◌∙◌, ◌⊎◌, inl, inr, Option, none, some, List, [], ◌∷◌, ◌++◌,
  Bool, false, not, arith, leb, if◌then◌else◌, length, All, All-map, Bool-cases,
}
use nft_auth_whitelist.Prelude.Sort.{sort}
use nft_auth_whitelist.Text.{Text, text_eq_refl, text_eq_iff}
use nft_auth_whitelist.Clock.{Time, Duration, add, truncate}
use nft_auth_whitelist.Dict.{
  Dict, find, put, delete, HasDistinctKeys, MapOrder, drop_loop, find-put, All-put, All-delete,
  HasDistinctKeys-put, HasDistinctKeys-delete, find-select, All-find,
}
use nft_auth_whitelist.Signer.{Entry}
use nft_auth_whitelist.AtomicFile.{Disk, Outcomes}
use nft_auth_whitelist.Store.Defs.{
  Store, StoreJson, Logged, expired, by_seen, evict_loop, enforce_limit_locked, record_entry,
  refresh_or_add,
}
use nft_auth_whitelist.Store.Enforce.{
  IsEnforced, KeptOrOldest, unexpired, enforce_limit_locked-IsEnforced,
}
use nft_auth_whitelist.Store.Snapshot.{IsValid}

abbrev IsKeyed : Text × Entry → Type 0
IsKeyed x = x.1.cidr ≡ x.0

-- Loops that only delete keep the invariant of a map.
record IsWell (m : Dict Entry) : Type 0 where
  distinct : HasDistinctKeys m
  keyed : All IsKeyed m

IsWell-delete : (k : Text) (m : Dict Entry) → IsWell m → IsWell (delete k m)
IsWell-delete k m w = record {
  distinct = HasDistinctKeys-delete k m w.distinct;
  keyed = All-delete IsKeyed k m w.keyed;
}

-- What every deletion keeps, `enforceLimitLocked` keeps.
module _ (Q : Dict Entry → Type 0) (keep : (k : Text) (m : Dict Entry) → Q m → Q (delete k m)) where
  evict-keeps :
      (limit : ℕ) (visit m : Dict Entry) (gone : List Text)
      → Q m
      → Q (evict_loop limit visit m gone).0
  unfolding evict_loop
  evict-keeps limit [] m gone w = w
  evict-keeps limit (x ∷ rest) m gone w =
      ground (arith, w, evict-keeps limit rest (delete x.0 m) (gone ++ x.0 ∷ []) (keep x.0 m w))

  drop-keeps :
      (dead : Entry → Bool) (visit m : Dict Entry) (gone : List Text)
      → Q m
      → Q (drop_loop dead visit m gone).0
  unfolding drop_loop
  drop-keeps dead [] m gone w = w
  drop-keeps dead ((k, e) ∷ rest) m gone w =
      drop-keeps dead rest (if dead e then delete k m else m)
        (if dead e then gone ++ k ∷ [] else gone) (ground (arith, w, keep k m w))

  enforce-keeps :
      (ord : MapOrder Entry) (now : Time) (s : Store)
      → Q s.entries
      → Q (enforce_limit_locked ord now s).0.entries
  unfolding enforce_limit_locked
  enforce-keeps ord now s w =
      let r = drop_loop (expired now) (ord.order 0 s.entries) s.entries [] in
      let w' : Q r.0 = drop-keeps (expired now) (ord.order 0 s.entries) s.entries [] w in
      ground (arith, w', evict-keeps s.max_entries (sort by_seen (ord.order 1 r.0)) r.0 r.1 w')

enforce-max_entries :
    (ord : MapOrder Entry) (now : Time) (s : Store)
    → (enforce_limit_locked ord now s).0.max_entries ≡ s.max_entries
unfolding enforce_limit_locked
enforce-max_entries ord now s = ground arith

refresh_or_add-cidr :
    (o : Option Entry) (cidr ip source : Text) (now exp : Time)
    → ((e : Entry) → o ≡ some e → e.cidr ≡ cidr)
    → (refresh_or_add o cidr ip source now exp).cidr ≡ cidr
unfolding refresh_or_add
refresh_or_add-cidr none cidr ip source now exp h = refl
refresh_or_add-cidr (some e) cidr ip source now exp h = h e refl

find-IsKeyed :
    (k : Text) (m : Dict Entry) → All IsKeyed m → (e : Entry) → find k m ≡ some e → e.cidr ≡ k
unfolding find
find-IsKeyed k [] h e f = cc
find-IsKeyed k ((j, w) ∷ m) h e f = ground (arith, find-IsKeyed k m h.1 e, text_eq_iff j k, h.0)

module _ (json : StoreJson) (ord : MapOrder Entry) (io : Outcomes) (cidr ip source : Text)
    (now : Time) (ttl : Duration) (s : Store) (d : Disk) (v : IsValid s) where
  abbrev seen_at : Time
  seen_at = truncate now

  -- What `Record` writes under the CIDR.
  abbrev pub recorded : Entry
  recorded =
      refresh_or_add (find cidr s.entries) cidr ip source seen_at (truncate (add seen_at ttl))

  abbrev added : Store
  added = record s { entries = put cidr recorded s.entries }

  abbrev pub after_record : Logged
  after_record = record_entry json ord io cidr ip source now ttl s d

  recorded-cidr : recorded.cidr ≡ cidr
  recorded-cidr =
      refresh_or_add-cidr (find cidr s.entries) cidr ip source seen_at _
        (find-IsKeyed cidr s.entries v.keyed)

  added-IsWell : IsWell added.entries
  added-IsWell = record {
    distinct = HasDistinctKeys-put cidr recorded s.entries v.distinct;
    keyed = All-put IsKeyed cidr recorded s.entries (λ j e. recorded-cidr ∙ sym e) v.keyed;
  }

  store-eq : after_record.store ≡ (enforce_limit_locked ord seen_at added).0
  unfolding record_entry
  store-eq = refl

  enforced : IsEnforced seen_at s.max_entries added.entries after_record.store.entries
  enforced = rw store-eq (enforce_limit_locked-IsEnforced ord seen_at added added-IsWell.distinct)

  -- What holds of the recorded entry and of every other one holds of those that are left.
  pub record_entry-All :
      (P : Text × Entry → Type 0)
      → ((k : Text) → k ≡ cidr → P (k, recorded))
      → All P s.entries
      → All P after_record.store.entries
  record_entry-All P own others = rw store-eq (
      enforce-keeps (All P) (λ k m. All-delete P k m) ord seen_at added
        (All-put P cidr recorded s.entries own others))

  pub record_entry-max_entries : after_record.store.max_entries ≡ s.max_entries
  unfolding enforce_limit_locked
  record_entry-max_entries =
      ap (λ t. t.max_entries) store-eq ∙ enforce-max_entries ord seen_at added

  -- Record on a valid store leaves a valid one: no two records under one CIDR, and each record
  -- under its own.
  pub record_entry-IsValid : IsValid after_record.store
  record_entry-IsValid =
      let w = enforce-keeps IsWell IsWell-delete ord seen_at added added-IsWell in
      rw store-eq (record { distinct = w.distinct; keyed = w.keyed })

  -- Record on a valid store leaves at most max_entries records, however many there were before.
  pub record_entry_bounded : length after_record.store.entries ≤ s.max_entries
  record_entry_bounded =
      elim (Bool-cases (leb (length (unexpired seen_at added.entries)) s.max_entries)) [
        | inl e ↦
            let le : length (unexpired seen_at added.entries) ≤ s.max_entries = ground arith in
            rw (enforced.untouched le) le
        | inr e ↦ let full = enforced.full (ground arith) in omega arith
      ]

  abbrev SeenBefore : Text × Entry → Type 0
  SeenBefore x = x.1.last_seen_at < seen_at

  abbrev OwnOrBefore : Text × Entry → Type 0
  OwnOrBefore x = ((x.0 ≡ cidr) × (x.1 ≡ recorded)) ⊎ SeenBefore x

  pub recorded-seen : recorded.last_seen_at ≡ seen_at
  unfolding refresh_or_add
  recorded-seen = ground arith

  pub recorded-expires : recorded.expires_at ≡ truncate (add seen_at ttl)
  unfolding refresh_or_add
  recorded-expires = ground arith

  find-added : find cidr added.entries ≡ some recorded
  find-added = find-put cidr cidr recorded s.entries ∙ rw text_eq_refl

  module _ (fresh : seen_at < truncate (add seen_at ttl)) where
    find-live : find cidr (unexpired seen_at added.entries) ≡ some recorded
    unfolding expired
    find-live =
        find-select (λ x. not (expired seen_at x.1)) cidr recorded added.entries find-added
          (ground (arith, recorded-expires))

    -- A survivor that was seen as late as the recorded one is the recorded one.
    own :
        (r : Dict Entry)
        → 0 < length r
        → All OwnOrBefore r
        → All (λ y. by_seen y (cidr, recorded) ≡ false) r
        → find cidr r ≡ some recorded
    unfolding find by_seen
    own [] h a b = absurd (omega arith)
    own (y ∷ r) h a b = ground (arith, a.0, b.0, recorded-seen, text_eq_iff y.0 cidr)

    -- Record on a valid store with room for a record finds the new record under its CIDR
    -- afterwards, if the time to live reaches into a later second and every earlier record was last
    -- seen in an earlier second.
    pub record_entry_found :
        0 < s.max_entries
        → All SeenBefore s.entries
        → find cidr after_record.store.entries ≡ some recorded
    record_entry_found room before =
        elim (Bool-cases (leb (length (unexpired seen_at added.entries)) s.max_entries)) [
          | inl e ↦ rw (enforced.untouched (ground arith)) find-live
          | inr e ↦
              elim (All-find (KeptOrOldest _) cidr recorded _ enforced.oldest_first find-live) [
                | inl kept ↦ kept
                | inr oldest ↦
                    own _ (let full = enforced.full (ground arith) in omega arith) owned oldest
              ]
        ]
      where
        owned : All OwnOrBefore after_record.store.entries
        owned = rw store-eq (
            enforce-keeps (All OwnOrBefore) (λ k m. All-delete OwnOrBefore k m) ord seen_at added
              (All-put OwnOrBefore cidr recorded s.entries (λ j e. inl (e, refl))
                (All-map SeenBefore OwnOrBefore s.entries (λ x h. inr h) before)))
