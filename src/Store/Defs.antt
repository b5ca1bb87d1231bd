-- ===== src/Store/Defs.antt =====
-- The store and its methods. The lock makes each method one step. `ord` is the order in which the
-- method's `range` loops visit the map, `io` what the operating system answers to its write.
use nft_auth_whitelist.Prelude.{
  ℕ, suc, Option, none, some, List, [], ◌∷◌, ◌++◌, map, Bool, true, false, not, ltb, leb,
  if◌then◌else◌, length, select,
}
use nft_auth_whitelist.Prelude.Int.{ℤ, pos, ◌+ℤ◌}
use nft_auth_whitelist.Prelude.Sort.{sort}
use nft_auth_whitelist.Text.{Text, text_eq, text_lt}
use nft_auth_whitelist.Clock.{Time, Duration, add, truncate, after, before}
use nft_auth_whitelist.Dict.{Dict, find, put, delete, MapOrder, drop_loop}
use nft_auth_whitelist.Signer.{Entry, Envelope, Crypto, sign}
use nft_auth_whitelist.AtomicFile.{Disk, Syscall, Outcomes, write}

pub record Store : Type 0 where
  pub path : Text
  pub max_entries : ℕ
  pub entries : Dict Entry

-- encoding/json on the type `persisted`.
pub record StoreJson : Type 0 where
  pub marshal_entries : List Entry → Option Text
  pub unmarshal_entries : Text → Option (List Entry)

pub data StoreError : Type 0 where
  marshal_failed unmarshal_failed unreadable mkdir_failed : StoreError
  not_written : Syscall → StoreError

pub record RecordResult : Type 0 where
  pub entry : Entry
  pub is_new : Bool
  pub evicted : List Text

-- `!e.ExpiresAt.After(now)`
unfoldable pub expired : Time → Entry → Bool
expired now e = not (after e.expires_at now)

unfoldable pub by_cidr : Entry → Entry → Bool
by_cidr a b = text_lt a.cidr b.cidr

unfoldable pub by_seen : Text × Entry → Text × Entry → Bool
by_seen a b = before a.1.last_seen_at b.1.last_seen_at

unfoldable pub load_entries : List Entry → Dict Entry → Dict Entry
load_entries [] m = m
load_entries (e ∷ es) m = load_entries es (put e.cidr e m)

abbrev pub parse_entries : Option (List Entry) → Store → Option StoreError × Store
parse_entries none s = (some StoreError.unmarshal_failed, s)
parse_entries (some es) s = (none, record s { entries = load_entries es s.entries })

-- A file that is not there is no error; `readable` is false where reading fails otherwise.
unfoldable pub load : StoreJson → Bool → Disk → Store → Option StoreError × Store
unfolding load_entries
load json readable d s =
    if readable
    then elim (find s.path d.files) [
      | none ↦ (none, s)
      | some f ↦ parse_entries (json.unmarshal_entries f.content) s
    ]
    else (some StoreError.unreadable, s)

-- `New` with the path that `filepath.Join(dataDir, "entries.json")` gives.
unfoldable pub positive_or : ℤ → ℕ → ℕ
positive_or (pos (suc n)) default = suc n
positive_or _ default = default

abbrev pub keep_loaded : Option StoreError × Store → Option StoreError × Option Store
keep_loaded (none, s) = (none, some s)
keep_loaded (some e, s) = (some e, none)

unfoldable pub new :
    StoreJson → Text → Text → ℤ → Bool → Bool → Disk → Option StoreError × Option Store
unfolding positive_or load
new json data_dir path max_entries mkdir_ok readable d =
    let s : Store = record {
      path = path;
      max_entries = positive_or max_entries 200;
      entries = [];
    } in
    if text_eq data_dir []
    then keep_loaded (load json readable d s)
    else if mkdir_ok
    then keep_loaded (load json readable d s)
    else (some StoreError.mkdir_failed, none)

abbrev write_error : Option Syscall × Disk → Option StoreError × Disk
write_error (none, d) = (none, d)
write_error (some e, d) = (some (StoreError.not_written e), d)

-- The n-th `range` of the method collects the entries to write.
unfoldable pub persist_locked :
    StoreJson → MapOrder Entry → ℕ → Outcomes → Store → Disk → Option StoreError × Disk
unfolding by_cidr
persist_locked json ord n io s d =
    if text_eq s.path []
    then (none, d)
    else elim (json.marshal_entries (sort by_cidr (map (λ x. x.1) (ord.order n s.entries)))) [
      | none ↦ (some StoreError.marshal_failed, d)
      | some b ↦ write_error (write io s.path b 0o600 d)
    ]

-- Deletes from the front of the list while the map is over the limit.
unfoldable pub evict_loop :
    ℕ → List (Text × Entry) → Dict Entry → List Text → Dict Entry × List Text
evict_loop limit [] m gone = (m, gone)
evict_loop limit (x ∷ rest) m gone =
    let more = evict_loop limit rest (delete x.0 m) (gone ++ x.0 ∷ []) in
    if ltb limit (length m) then more else (m, gone)

unfoldable pub enforce_limit_locked : MapOrder Entry → Time → Store → Store × List Text
unfolding drop_loop evict_loop expired by_seen
enforce_limit_locked ord now s =
    let (live, evicted) = drop_loop (expired now) (ord.order 0 s.entries) s.entries [] in
    if leb (length live) s.max_entries
    then (record s { entries = live }, evicted)
    else (let (kept, gone) =
          evict_loop s.max_entries (sort by_seen (ord.order 1 live)) live evicted in
        (record s { entries = kept }, gone))

-- The entry that `Record` leaves for the address, from the one that is there.
unfoldable pub refresh_or_add : Option Entry → Text → Text → Text → Time → Time → Entry
refresh_or_add (some e) cidr ip source now exp = record e {
  last_seen_at = now;
  expires_at = exp;
  hit_count = e.hit_count +ℤ pos 1;
}
refresh_or_add none cidr ip source now exp = record {
  ip = ip;
  cidr = cidr;
  source = source;
  created_at = now;
  expires_at = exp;
  last_seen_at = now;
  hit_count = pos 1;
}

abbrev is_none {ℓ} : {A : Type ℓ} → Option A → Bool
is_none none = true
is_none (some a) = false

-- What a method that may fail returns, with the store and the disk after it.
pub record Logged : Type 0 where
  pub result : RecordResult
  pub error : Option StoreError
  pub store : Store
  pub disk : Disk

-- `Record`
unfoldable pub record_entry :
    StoreJson
    → MapOrder Entry
    → Outcomes
    → Text
    → Text
    → Text
    → Time
    → Duration
    → Store
    → Disk
    → Logged
unfolding refresh_or_add enforce_limit_locked persist_locked
record_entry json ord io cidr ip source now ttl s d =
    let now' = truncate now in
    let exp = truncate (add now' ttl) in
    let old = find cidr s.entries in
    let e = refresh_or_add old cidr ip source now' exp in
    let (s', evicted) =
      enforce_limit_locked ord now' (record s { entries = put cidr e s.entries }) in
    let (error, d') = persist_locked json ord 2 io s' d in
    record {
      result = record { entry = e; is_new = is_none old; evicted = evicted };
      error = error;
      store = s';
      disk = d';
    }

-- `Purge`: the error of the write is dropped.
unfoldable pub purge :
    StoreJson → MapOrder Entry → Outcomes → Time → Store → Disk → List Text × Store × Disk
unfolding drop_loop expired persist_locked
purge json ord io now s d =
    let (live, removed) = drop_loop (expired now) (ord.order 0 s.entries) s.entries [] in
    let s' = record s { entries = live } in
    if ltb 0 (length removed)
    then (removed, s', (persist_locked json ord 1 io s' d).1)
    else (removed, s', d)

-- `Snapshot`
unfoldable pub snapshot : MapOrder Entry → Time → Store → List Entry
unfolding by_cidr
snapshot ord now s =
    sort by_cidr (select (λ e. after e.expires_at now) (map (λ x. x.1) (ord.order 0 s.entries)))

-- `Count`
unfoldable pub count : Store → ℕ
count s = length s.entries

-- `BuildEnvelope`
unfoldable pub build_envelope :
    Crypto → MapOrder Entry → Time → Duration → Text → Store → Option Envelope
unfolding snapshot
build_envelope crypto ord now ttl secret s =
    let now' = truncate now in
    sign crypto
      (record {
        version = pos 1;
        issued_at = now';
        expires_at = truncate (add now' ttl);
        entries = snapshot ord now' s;
        signature = [];
      })
      secret
