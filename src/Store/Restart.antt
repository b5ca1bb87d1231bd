-- ===== src/Store/Restart.antt =====
-- The file of the store: what `persistLocked` writes, `load` reads back after a restart.
use mathlib.Core.List.Permᴰ
use nft_auth_whitelist.Prelude.{
  ℕ, ◌≡◌, refl, ap, ◌∙◌, inl, inr, Option, none, some, List, [], ◌∷◌, map, true, false, arith, All,
  Permᴰ, Bool-cases, Option-cases, subst,
}
use nft_auth_whitelist.Prelude.Sort.{sort, sort-perm}
use nft_auth_whitelist.Text.{Text, text_eq, text_eq_iff, text_eq_comm}
use nft_auth_whitelist.Dict.{
  Dict, find, put, HasDistinctKeys, HasDistinctKeys-perm, MapOrder, find-put, find-perm,
}
use nft_auth_whitelist.Signer.{Entry}
use nft_auth_whitelist.AtomicFile.{File, Disk, Outcomes, find-write, new_file}
use nft_auth_whitelist.Store.Defs.{
  Store, StoreJson, StoreError, by_cidr, persist_locked, load, load_entries,
}
use nft_auth_whitelist.Store.Snapshot.{IsValid, values}

-- The map that a list of entries stands for.
abbrev as_map : List Entry → Dict Entry
as_map = map (λ e. (e.cidr, e))

or_else : Option Entry → Option Entry → Option Entry
or_else (some e) o = some e
or_else none o = o

find-none : (k : Text) (m : Dict Entry) → All (λ x. text_eq k x.0 ≡ false) m → find k m ≡ none
unfolding find
find-none k [] h = refl
find-none k ((j, w) ∷ m) h = ground (arith, find-none k m h.1, text_eq_comm k j, h.0)

find-load_entries :
    (k : Text) (es : List Entry) (m : Dict Entry)
    → HasDistinctKeys (as_map es)
    → find k (load_entries es m) ≡ or_else (find k (as_map es)) (find k m)
unfolding load_entries find or_else
find-load_entries k [] m h = refl
find-load_entries k (e ∷ es) m h = elim (Bool-cases (text_eq e.cidr k)) [
  | inl s ↦
      let absent : find k (as_map es) ≡ none =
        subst (λ j. find j (as_map es) ≡ none) ((text_eq_iff e.cidr k).0 s)
          (find-none e.cidr (as_map es) h.0) in
      ground (arith, s, absent, find-load_entries k es (put e.cidr e m) h.1, find-put k e.cidr e m)
  | inr s ↦ ground (arith, s, find-load_entries k es (put e.cidr e m) h.1, find-put k e.cidr e m)
]

as_map-values : (m : Dict Entry) → All (λ x. x.1.cidr ≡ x.0) m → as_map (values m) ≡ m
as_map-values [] h = refl
as_map-values ((k, e) ∷ m) h = cc (h.0, as_map-values m h.1)

module _ (json : StoreJson) where
  module _ (ord : MapOrder Entry) (n : ℕ) (io : Outcomes) (s : Store) (d : Disk) (v : IsValid s)
      (named : text_eq s.path [] ≡ false) (apart : text_eq io.tmp s.path ≡ false) where
    abbrev listed : List Entry
    listed = sort by_cidr (values (ord.order n s.entries))

    abbrev fresh : Store
    fresh = record s { entries = [] }

    listed-perm : Permᴰ (as_map listed) s.entries
    listed-perm =
        subst (Permᴰ (as_map listed)) (as_map-values s.entries v.keyed) (
          Permᴰ.map _
            (Permᴰ.trans (sort-perm by_cidr _) (Permᴰ.map _ (ord.order-perm n s.entries))))

    find-listed : (k : Text) → find k (load_entries listed []) ≡ find k s.entries
    unfolding or_else find
    find-listed k =
        let distinct = HasDistinctKeys-perm (Permᴰ.symm listed-perm) v.distinct in
        let same = find-perm k listed-perm distinct in
        ground (arith, find-load_entries k listed [] distinct, same)

    persisted : Option StoreError × Disk
    persisted = persist_locked json ord n io s d

    file_written :
        (b : Text)
        → json.marshal_entries listed ≡ some b
        → persisted.0 ≡ none
        → find s.path persisted.1.files ≡ some (new_file b 384)
    unfolding persisted persist_locked
    file_written b e h = ground (arith, e, named, find-write io s.path b 384 apart d)

    load-eq :
        (d' : Disk) (f : File) (es : List Entry)
        → find s.path d'.files ≡ some f
        → json.unmarshal_entries f.content ≡ some es
        → load json true d' fresh ≡ (none, record s { entries = load_entries es [] })
    unfolding load
    load-eq d' f es a b = rw (a, b)

    was_marshalled : persisted.0 ≡ none → (b : Text) × (json.marshal_entries listed ≡ some b)
    unfolding persisted persist_locked
    was_marshalled h = elim (Option-cases (json.marshal_entries listed)) [
      | inl e ↦ absurd (ground (arith, e, named))
      | inr r ↦ r
    ]

    -- If the JSON of the list of entries that is written reads back as that list, then after a
    -- write of a valid store without error, to a path that is not empty and not that of the
    -- temporary file, load on an empty store of that path gives no error, and every lookup finds
    -- what it found before.
    pub load-persist :
        ((b : Text)
          → json.marshal_entries (sort by_cidr (map (λ x. x.1) (ord.order n s.entries))) ≡ some b
          → json.unmarshal_entries b ≡ some (sort by_cidr (map (λ x. x.1) (ord.order n s.entries))))
        → (persist_locked json ord n io s d).0 ≡ none
        → let back =
            load json true (persist_locked json ord n io s d).1 (record s { entries = [] }) in
          (back.0 ≡ none) × ((k : Text) → find k back.1.entries ≡ find k s.entries)
    unfolding persisted
    load-persist reads h =
        let (b, e) = was_marshalled h in
        let l = load-eq persisted.1 (new_file b 384) listed (file_written b e h) (reads b e) in
        (ap (λ r. r.0) l, λ k. ap (λ r. find k r.1.entries) l ∙ find-listed k)
