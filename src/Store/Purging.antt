-- ===== src/Store/Purging.antt =====
-- Purge: exactly the expired records go, and the file is written only if one did.
use mathlib.Core.List.Permᴰ
use nft_auth_whitelist.Prelude.{
  ◌≡◌, sym, ap, ◌∙◌, List, [], arith, select, Permᴰ, select-perm, subst,
}
use nft_auth_whitelist.Text.{Text}
use nft_auth_whitelist.Clock.{Time}
use nft_auth_whitelist.Dict.{
  Dict, keys, MapOrder, drop_loop, drop_loop-map, drop_loop-gone, HasDistinctKeys-select,
}
use nft_auth_whitelist.Prelude.{All-select}
use nft_auth_whitelist.Signer.{Entry}
use nft_auth_whitelist.AtomicFile.{Disk, Outcomes}
use nft_auth_whitelist.Store.Defs.{Store, StoreJson, expired, purge}
use nft_auth_whitelist.Store.Enforce.{unexpired}
use nft_auth_whitelist.Store.Snapshot.{IsValid}

-- The store and the disk after `Purge`, and the CIDRs that it returns.
pub record IsPurged (now : Time) (s : Store) (d : Disk) (r : List Text × Store × Disk)
    : Type 0 where
  pub left : r.1.entries ≡ unexpired now s.entries
  pub removed : Permᴰ r.0 (keys (select (λ x. expired now x.1) s.entries))
  pub quiet : r.0 ≡ [] → r.2 ≡ d

module _ (json : StoreJson) (ord : MapOrder Entry) (io : Outcomes) (now : Time) (s : Store)
    (d : Disk) (v : IsValid s) where
  abbrev looped : Dict Entry × List Text
  looped = drop_loop (expired now) (ord.order 0 s.entries) s.entries []

  purge-store : (purge json ord io now s d).1 ≡ record s { entries = looped.0 }
  unfolding purge
  purge-store = ground arith

  purge-removed : (purge json ord io now s d).0 ≡ looped.1
  unfolding purge
  purge-removed = ground arith

  left_lem : looped.0 ≡ unexpired now s.entries
  left_lem = drop_loop-map (expired now) [] (ord.order-perm 0 s.entries) v.distinct

  quiet_lem : looped.1 ≡ [] → (purge json ord io now s d).2 ≡ d
  unfolding purge
  quiet_lem h = rw h

  removed_lem : Permᴰ looped.1 (keys (select (λ x. expired now x.1) s.entries))
  removed_lem =
      subst (λ l. Permᴰ l (keys (select (λ x. expired now x.1) s.entries)))
        (sym (drop_loop-gone (expired now) (ord.order 0 s.entries) s.entries []))
        (Permᴰ.map _ (select-perm _ (ord.order-perm 0 s.entries)))

  -- Purge of a valid store leaves the unexpired records, returns the CIDRs of the expired ones,
  -- each as often as it was there, and leaves the disk alone if it removed none.
  pub purge-IsPurged : IsPurged now s d (purge json ord io now s d)
  purge-IsPurged = record {
    left = ap (λ t. t.entries) purge-store ∙ left_lem;
    removed =
        subst (λ l. Permᴰ l (keys (select (λ x. expired now x.1) s.entries))) (sym purge-removed)
          removed_lem;
    quiet = λ h. quiet_lem (sym purge-removed ∙ h);
  }

  pub purge-IsValid : IsValid (purge json ord io now s d).1
  purge-IsValid =
      let e = ap (λ t. t.entries) purge-store ∙ left_lem in
      record {
        distinct = rw e (HasDistinctKeys-select _ s.entries v.distinct);
        keyed = rw e (All-select _ _ s.entries v.keyed);
      }

  pub purge-max_entries : (purge json ord io now s d).1.max_entries ≡ s.max_entries
  purge-max_entries = ap (λ t. t.max_entries) purge-store
