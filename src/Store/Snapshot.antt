-- ===== src/Store/Snapshot.antt =====
-- Snapshot and BuildEnvelope: what is exported does not depend on the order in which Go visits the
-- map, so the bytes that are signed are the same each time.
use mathlib.Core.List.Permᴰ
use nft_auth_whitelist.Prelude.{
  ◌≡◌, sym, ap, subst, ◌∙◌, ◌⊎◌, inl, inr, some, List, [], ◌∷◌, map, Bool, true, false, select, All,
  All-select, Permᴰ, Bool-cases, select-perm,
}
use nft_auth_whitelist.Prelude.Int.{pos}
use nft_auth_whitelist.Prelude.Sort.{
  IsOrder, IsStrict, AreApart, sort, sort-perm, sort-IsStrict, sort-perm-eq, AreApart-perm,
}
use nft_auth_whitelist.Text.{Text, text_eq, text_lt_total, text_lt-IsOrder, text_ne}
use nft_auth_whitelist.Clock.{Time, Duration, after, add, truncate}
use nft_auth_whitelist.Dict.{Dict, HasDistinctKeys, MapOrder}
use nft_auth_whitelist.Signer.{Entry, Envelope, Crypto, verify}
use nft_auth_whitelist.Signer.Laws.{verify-sign, sign-eq}
use nft_auth_whitelist.Store.Defs.{Store, by_cidr, snapshot, build_envelope}

-- Each key is there once, and is the CIDR of its entry.
pub record IsValid (s : Store) : Type 0 where
  pub distinct : HasDistinctKeys s.entries
  pub keyed : All (λ x. x.1.cidr ≡ x.0) s.entries

by_cidr-IsOrder : IsOrder by_cidr
unfolding by_cidr
by_cidr-IsOrder = record {
  asym = λ a b. text_lt-IsOrder.asym a.cidr b.cidr;
  between = λ a b c. text_lt-IsOrder.between a.cidr b.cidr c.cidr;
}

abbrev pub values : Dict Entry → List Entry
values = map (λ x. x.1)

-- The entries that have not expired at a time.
abbrev pub current : Time → Dict Entry → List Entry
current now m = select (λ e. after e.expires_at now) (values m)

apart_from :
    (k : Text) (e : Entry) (m : Dict Entry)
    → e.cidr ≡ k
    → All (λ x. text_eq k x.0 ≡ false) m
    → All (λ x. x.1.cidr ≡ x.0) m
    → All (λ f. (by_cidr e f ≡ true) ⊎ (by_cidr f e ≡ true)) (values m)
unfolding by_cidr
apart_from k e [] h a b = tt
apart_from k e (x ∷ m) h a b =
    (rw (h, b.0) (text_lt_total k x.0 (text_ne k x.0 a.0)), apart_from k e m h a.1 b.1)

pub values-AreApart :
    (m : Dict Entry) → HasDistinctKeys m → All (λ x. x.1.cidr ≡ x.0) m → AreApart by_cidr (values m)
values-AreApart [] h k = tt
values-AreApart ((j, e) ∷ m) h k = (apart_from j e m k.0 h.0 k.1, values-AreApart m h.1 k.1)

pub AreApart-select :
    (p : Entry → Bool) (xs : List Entry) → AreApart by_cidr xs → AreApart by_cidr (select p xs)
AreApart-select p [] h = h
AreApart-select p (x ∷ xs) h = elim (Bool-cases (p x)) [
  | inl e ↦ rw e (All-select _ p xs h.0, AreApart-select p xs h.1)
  | inr e ↦ rw e (AreApart-select p xs h.1)
]

module _ (ord : MapOrder Entry) (now : Time) (s : Store) where
  ranged-perm : Permᴰ (current now (ord.order 0 s.entries)) (current now s.entries)
  ranged-perm = select-perm _ (Permᴰ.map _ (ord.order-perm 0 s.entries))

  -- The snapshot holds the current entries, each as often as the map does.
  pub snapshot-perm : Permᴰ (snapshot ord now s) (current now s.entries)
  unfolding snapshot
  snapshot-perm = Permᴰ.trans (sort-perm by_cidr _) ranged-perm

  module _ (valid : IsValid s) where
    current-AreApart : AreApart by_cidr (current now s.entries)
    current-AreApart = AreApart-select _ _ (values-AreApart s.entries valid.distinct valid.keyed)

    -- It ascends strictly by CIDR.
    pub snapshot-IsStrict : IsStrict by_cidr (snapshot ord now s)
    unfolding snapshot
    snapshot-IsStrict =
        sort-IsStrict by_cidr-IsOrder _
          (AreApart-perm by_cidr-IsOrder (Permᴰ.symm ranged-perm) current-AreApart)

    snapshot-eq : snapshot ord now s ≡ sort by_cidr (current now s.entries)
    unfolding snapshot
    snapshot-eq = sym (sort-perm-eq by_cidr-IsOrder (Permᴰ.symm ranged-perm) current-AreApart)

-- An export of the store: ascending by CIDR, and holding exactly the current entries.
pub record IsExport (now : Time) (s : Store) (out : List Entry) : Type 0 where
  pub ascending : IsStrict by_cidr out
  pub exact : Permᴰ out (current now s.entries)

-- Snapshot of a valid store ascends strictly by CIDR and is a reordering of the entries that have
-- not expired.
pub snapshot-IsExport :
    (ord : MapOrder Entry) (now : Time) (s : Store)
    → IsValid s
    → IsExport now s (snapshot ord now s)
snapshot-IsExport ord now s v = record {
  ascending = snapshot-IsStrict ord now s v;
  exact = snapshot-perm ord now s;
}

-- Whatever orders Go visits the map in, `Snapshot` returns the same list.
pub snapshot_deterministic :
    (ord ord' : MapOrder Entry) (now : Time) (s : Store)
    → IsValid s
    → snapshot ord now s ≡ snapshot ord' now s
snapshot_deterministic ord ord' now s v = snapshot-eq ord now s v ∙ sym (snapshot-eq ord' now s v)

-- What `BuildEnvelope` promises of its result.
pub record IsFresh (crypto : Crypto) (now : Time) (ttl : Duration) (secret : Text) (s : Store)
    (env : Envelope) : Type 0 where
  pub accepted : verify crypto env secret ≡ true
  pub version_one : env.version ≡ pos 1
  pub issued : env.issued_at ≡ truncate now
  pub expiry : env.expires_at ≡ truncate (add (truncate now) ttl)
  pub export : IsExport (truncate now) s env.entries

module _ (crypto : Crypto) (now : Time) (ttl : Duration) (secret : Text) (s : Store)
    (v : IsValid s) where
  -- An envelope that BuildEnvelope returns for a valid store verifies under the same secret, has
  -- version 1, the time of issue cut to the second and the expiry a time to live later, and its
  -- entries are an export of the store.
  pub build_envelope-IsFresh :
      (ord : MapOrder Entry) {env : Envelope}
      → build_envelope crypto ord now ttl secret s ≡ some env
      → IsFresh crypto now ttl secret s env
  unfolding build_envelope
  build_envelope-IsFresh ord {env} h =
      let e = sign-eq crypto _ secret h in
      record {
        accepted = verify-sign crypto _ secret h;
        version_one = ap (λ x. x.version) e;
        issued = ap (λ x. x.issued_at) e;
        expiry = ap (λ x. x.expires_at) e;
        export =
            subst (IsExport (truncate now) s) (sym (ap (λ x. x.entries) e))
              (snapshot-IsExport ord (truncate now) s v);
      }

  -- For a valid store BuildEnvelope gives the same envelope, signature included, whatever order Go
  -- visits the map in.
  pub build_envelope_deterministic :
      (ord ord' : MapOrder Entry)
      → build_envelope crypto ord now ttl secret s ≡ build_envelope crypto ord' now ttl secret s
  unfolding build_envelope
  build_envelope_deterministic ord ord' = rw (snapshot_deterministic ord ord' (truncate now) s v)
