-- ===== src/Store/Opening.antt =====
-- New: a store that opens holds its file's records, each under its own CIDR.
use nft_auth_whitelist.Prelude.{
  ℕ, zero, suc, subst, ◌≡◌, sym, Option, none, some, List, [], ◌∷◌, Bool, ◌<◌, arith, All,
  Bool-cases, inl, inr, Option-cases,
}
use nft_auth_whitelist.Prelude.Int.{ℤ, pos, negsuc}
use nft_auth_whitelist.Text.{Text, text_eq}
use nft_auth_whitelist.Dict.{Dict, find, put, HasDistinctKeys, HasDistinctKeys-put, All-put}
use nft_auth_whitelist.Signer.{Entry}
use nft_auth_whitelist.AtomicFile.{Disk}
use nft_auth_whitelist.Store.Defs.{
  Store, StoreJson, StoreError, load_entries, parse_entries, keep_loaded, positive_or, load, new,
}
use nft_auth_whitelist.Store.Snapshot.{IsValid}

record IsMap (m : Dict Entry) : Type 0 where
  distinct : HasDistinctKeys m
  keyed : All (λ x. x.1.cidr ≡ x.0) m

load_entries-IsMap : (es : List Entry) (m : Dict Entry) → IsMap m → IsMap (load_entries es m)
unfolding load_entries
load_entries-IsMap [] m h = h
load_entries-IsMap (e ∷ es) m h = load_entries-IsMap es (put e.cidr e m) (record {
  distinct = HasDistinctKeys-put e.cidr e m h.distinct;
  keyed = All-put (λ x. x.1.cidr ≡ x.0) e.cidr e m (λ j p. sym p) h.keyed;
})

-- A store as New gives it: valid, with room for a record.
pub record IsOpen (s : Store) : Type 0 where
  pub valid : IsValid s
  pub room : 0 < s.max_entries

parse_entries-IsOpen :
    (o : Option (List Entry)) (s : Store) → IsOpen s → IsOpen (parse_entries o s).1
parse_entries-IsOpen none s k = k
parse_entries-IsOpen (some es) s k =
    let m =
      load_entries-IsMap es s.entries
        (record { distinct = k.valid.distinct; keyed = k.valid.keyed }) in
    record { valid = record { distinct = m.distinct; keyed = m.keyed }; room = k.room }

positive_or-pos : (n : ℤ) (default : ℕ) → 0 < default → 0 < positive_or n default
unfolding positive_or
positive_or-pos (pos zero) default h = h
positive_or-pos (pos (suc n)) default h = omega arith
positive_or-pos (negsuc n) default h = h

module _ (json : StoreJson) (readable : Bool) (d : Disk) where
  load-IsOpen : (s : Store) → IsOpen s → IsOpen (load json readable d s).1
  unfolding load
  load-IsOpen s k = elim (Bool-cases readable) [
    | inr e ↦ simp (load, e) k
    | inl e ↦ elim (Option-cases (find s.path d.files)) [
      | inl f ↦ simp (load, e, f) k
      | inr (file, f) ↦ simp (load, e, f) (parse_entries-IsOpen _ s k)
    ]
  ]

  keep_loaded-IsOpen :
      (r : Option StoreError × Store) (t : Store)
      → IsOpen r.1
      → (keep_loaded r).1 ≡ some t
      → IsOpen t
  keep_loaded-IsOpen (none, s) t k h = let e : s ≡ t = cc in subst IsOpen e k
  keep_loaded-IsOpen (some x, s) t k h = absurd (cc)

  -- The store before its file is read.
  abbrev empty_store : Text → ℤ → Store
  empty_store path max_entries = record {
    path = path;
    max_entries = positive_or max_entries 200;
    entries = [];
  }

  empty-IsOpen : (path : Text) (max_entries : ℤ) → IsOpen (empty_store path max_entries)
  empty-IsOpen path max_entries = record {
    valid = record { distinct = tt; keyed = tt };
    room = positive_or-pos max_entries 200 (omega arith);
  }

  -- A store that New returns is valid, with room for a record, whatever its file holds.
  pub new-IsOpen :
      (data_dir path : Text) (max_entries : ℤ) (mkdir_ok : Bool) (t : Store)
      → (new json data_dir path max_entries mkdir_ok readable d).1 ≡ some t
      → IsOpen t
  unfolding new
  new-IsOpen data_dir path max_entries mkdir_ok t h =
      let opened =
        keep_loaded-IsOpen (load json readable d (empty_store path max_entries)) t
          (load-IsOpen (empty_store path max_entries) (empty-IsOpen path max_entries)) in
      elim (Bool-cases (text_eq data_dir [])) [
        | inl a ↦ opened (simp (new, a) at h)
        | inr a ↦ elim (Bool-cases mkdir_ok) [
          | inl b ↦ opened (simp (new, a, b) at h)
          | inr b ↦
              let no : (new json data_dir path max_entries mkdir_ok readable d).1 ≡ none =
                simp (new, a, b) in
              absurd (cc)
        ]
      ]
