-- ===== src/Server/Invariant.antt =====
-- What holds of the store at every moment of a run: it is valid, within its limit, and each record
-- is one that was there at the start or that an admitted request had recorded.
use nft_auth_whitelist.Prelude.{
  ℕ, ◌≤◌, ◌<◌, ◌≡◌, ◌⊎◌, inl, inr, refl, sym, ap, ◌∙◌, subst, some, List, Bool, true, not, arith,
  length, length-select-le, All, All-map, All-select, All-and, All-select_self, IsIn,
}
use nft_auth_whitelist.Prelude.Int.{ℤ}
use nft_auth_whitelist.Text.{Text, text}
use nft_auth_whitelist.Clock.{Time, add, truncate, seconds}
use nft_auth_whitelist.Dict.{Dict, find, IsKnown-self}
use nft_auth_whitelist.Net.Ip.{Ip}
use nft_auth_whitelist.AtomicFile.{Disk}
use nft_auth_whitelist.ClientIp.{Extractor}
use nft_auth_whitelist.Ipx.{cidr}
use nft_auth_whitelist.Signer.{Entry}
use nft_auth_whitelist.Store.{Store, StoreJson, expired, purge, new}
use nft_auth_whitelist.Store.Opening.{new-IsOpen}
use nft_auth_whitelist.Store.Snapshot.{IsValid}
use nft_auth_whitelist.Store.Enforce.{unexpired}
use nft_auth_whitelist.Store.Purging.{purge-IsPurged, purge-IsValid, purge-max_entries}
use nft_auth_whitelist.Store.Recording
use nft_auth_whitelist.Store.Recording.{
  record_entry-IsValid, record_entry_bounded, record_entry-All, record_entry-max_entries,
  recorded-seen, recorded-expires,
}
use nft_auth_whitelist.Server.Defs.{Server, ServerConfig, Request, World}
use nft_auth_whitelist.Server.Root.{request_cidr}
use nft_auth_whitelist.Server.Access.{IsAdmitted}
use nft_auth_whitelist.Server.Program.{
  Step, purged, recorded, purged_tick, reconciled, Reach, here, next, Event, request, purge_tick,
  step, serve, new_server,
}
use nft_auth_whitelist.Server.Steps.{kept, serve-Reach, purge_logged-kept, purge_and_sync-kept}

lt-not-expired : (now : Time) (e : Entry) → not (expired now e) ≡ true → now < e.expires_at
unfolding expired
lt-not-expired now e h = ground arith

module _ (cfg : ServerConfig) (client : Extractor) (is_clean : Text → Bool) where
  -- How a record came to be what it is.
  pub data Origin (es : List Event) (start : Store) (x : Text × Entry) : Type 0 where
    at_start : find x.0 start.entries ≡ some x.1 → Origin es start x
    -- The last request that recorded it: the record lasts a time to live from then.
    by_request :
        (w : World) (now : Time) (r : Request) (ip : Ip)
        → IsIn (request w now r) es
        → IsAdmitted cfg w client r ip
        → request_cidr cfg w r ip ≡ cidr x.0
        → x.1.last_seen_at ≡ truncate w.recorded_at
        → x.1.expires_at ≡ truncate (add (truncate w.recorded_at) (seconds cfg.ttl_seconds))
        → Origin es start x

  pub record Holds (es : List Event) (start s : Store) : Type 0 where
    pub valid : IsValid s
    pub limit : s.max_entries ≡ start.max_entries
    pub size : (length s.entries ≤ start.max_entries) ⊎ (length s.entries ≤ length start.entries)
    pub origin : All (Origin es start) s.entries

  start-Holds : (es : List Event) (s : Store) → IsValid s → Holds es s s
  start-Holds es s v = record {
    valid = v;
    limit = refl;
    size = inr (omega arith);
    origin =
        All-map _ (Origin es s) s.entries (λ x e. at_start e) (IsKnown-self s.entries v.distinct);
  }

  module _ (es : List Event) (start : Store) where
    shrinks :
        (n m : ℕ)
        → n ≤ m
        → (m ≤ start.max_entries) ⊎ (m ≤ length start.entries)
        → (n ≤ start.max_entries) ⊎ (n ≤ length start.entries)
    shrinks n m h (inl a) = inl (omega arith)
    shrinks n m h (inr a) = inr (omega arith)

    purge-Holds :
        (w : World) (now : Time) (s : Store) (d : Disk)
        → Holds es start s
        → Holds es start (purge w.store_json w.entry_order w.purge_io now s d).1
    purge-Holds w now s d h =
        let p = purge-IsPurged w.store_json w.entry_order w.purge_io now s d h.valid in
        record {
          valid = purge-IsValid w.store_json w.entry_order w.purge_io now s d h.valid;
          limit = purge-max_entries w.store_json w.entry_order w.purge_io now s d h.valid ∙ h.limit;
          size =
              rw p.left
                (shrinks _ _ (length-select-le (λ x. not (expired now x.1)) s.entries) h.size);
          origin =
              rw p.left
                (All-select (Origin es start) (λ x. not (expired now x.1)) s.entries h.origin);
        }

    module _ (w : World) (now : Time) (r : Request) (ip : Ip) (range : Text) (s : Store) (d : Disk)
        (i : IsIn (request w now r) es) (a : IsAdmitted cfg w client r ip)
        (c : request_cidr cfg w r ip ≡ cidr range) (h : Holds es start s) where
      abbrev left : Store
      left =
          (Recording.after_record w.store_json w.entry_order w.record_io range (w.syn.format ip)
            (text "web_auth") w.recorded_at (seconds cfg.ttl_seconds) s d h.valid).store

      own :
          (k : Text)
          → k ≡ range
          → Origin es start (
            k,
            Recording.recorded w.store_json w.entry_order w.record_io range
                (w.syn.format ip)
                (text "web_auth")
                w.recorded_at
                (seconds cfg.ttl_seconds)
                s
                d
                h.valid,
          )
      own k e =
          by_request w now r ip i a (c ∙ ap cidr (sym e))
            (recorded-seen w.store_json w.entry_order w.record_io range (w.syn.format ip)
              (text "web_auth") w.recorded_at (seconds cfg.ttl_seconds) s d h.valid)
            (recorded-expires w.store_json w.entry_order w.record_io range (w.syn.format ip)
              (text "web_auth") w.recorded_at (seconds cfg.ttl_seconds) s d h.valid)

      bounded : length left.entries ≤ s.max_entries
      bounded =
          record_entry_bounded w.store_json w.entry_order w.record_io range (w.syn.format ip)
            (text "web_auth") w.recorded_at (seconds cfg.ttl_seconds) s d h.valid

      record-Holds : Holds es start left
      record-Holds = record {
        valid =
            record_entry-IsValid w.store_json w.entry_order w.record_io range (w.syn.format ip)
              (text "web_auth") w.recorded_at (seconds cfg.ttl_seconds) s d h.valid;
        limit =
            record_entry-max_entries w.store_json w.entry_order w.record_io range (w.syn.format ip)
              (text "web_auth") w.recorded_at (seconds cfg.ttl_seconds) s d h.valid
            ∙ h.limit;
        size = inl (subst (λ n. length left.entries ≤ n) h.limit bounded);
        origin =
            record_entry-All w.store_json w.entry_order w.record_io range (w.syn.format ip)
              (text "web_auth") w.recorded_at (seconds cfg.ttl_seconds) s d h.valid
              (Origin es start) own h.origin;
      }

    Step-Holds :
        {a b : Store × Disk} {f : Event}
        → IsIn f es
        → Step cfg client is_clean a b f
        → Holds es start a.0
        → Holds es start b.0
    Step-Holds {a} {b} i (purged_tick w now e) h = rw e (purge-Holds w now a.0 a.1 h)
    Step-Holds {a} {b} i (reconciled w now t e) h = rw e (purge-Holds w now a.0 a.1 h)
    Step-Holds {a} {b} i (purged w now r ip t e) h = rw e (purge-Holds w w.purged_at a.0 a.1 h)
    Step-Holds {a} {b} i (recorded w now r ip range t c e) h =
        rw e (record-Holds w now r ip range a.0 a.1 i t c h)

    Reach-Holds_from :
        {a b : Store × Disk}
        → Holds es start a.0
        → Reach cfg client is_clean es a b
        → Holds es start b.0
    Reach-Holds_from h here = h
    Reach-Holds_from h (next e i r st) = Step-Holds i st (Reach-Holds_from h r)

  -- A server's life: the store that New opens, and what becomes of it.
  module _ (json : StoreJson) (data_dir path : Text) (max_entries : ℤ) (mkdir_ok readable : Bool)
      (d : Disk) (st : Store)
      (opened : (new json data_dir path max_entries mkdir_ok readable d).1 ≡ some st) where
    opened-Holds : (es : List Event) → Holds es st st
    opened-Holds es =
        start-Holds es st
          (new-IsOpen json readable d data_dir path max_entries mkdir_ok st opened).valid

    -- From the store that New opens, however the steps of Purge and of Record that given events
    -- take interleave, the store stays valid and within max_entries or no larger than at the start,
    -- and each record is one of the start or was last recorded by one of the given requests, which
    -- was admitted, under a CIDR that CIDRForRequest allowed for it, and expires a time to live
    -- after that.
    pub Reach-Holds :
        (es : List Event) (b : Store × Disk)
        → Reach cfg client is_clean es (st, d) b
        → Holds es st b.0
    Reach-Holds es b r = Reach-Holds_from es st (opened-Holds es) r

    abbrev pub served : List Event → Server
    served es = serve cfg client is_clean es (new_server cfg st d)

    pub served-Holds : (es : List Event) → Holds es st (served es).store
    unfolding new_server
    served-Holds es =
        Reach-Holds es (kept (served es)) (serve-Reach cfg client is_clean es (new_server cfg st d))

    -- A record that lasts longer than now.
    abbrev pub IsCurrent : List Event → Time → Text × Entry → Type 0
    IsCurrent es now x = (now < x.1.expires_at) × Origin es st x

    after_tick : World → Time → List Event → Server
    after_tick w now es = step cfg client is_clean (purge_tick w now) (served es)

    tick-entries :
        (es : List Event) (w : World) (now : Time)
        → (after_tick w now es).store.entries ≡ unexpired now (served es).store.entries
    unfolding after_tick step
    tick-entries es w now =
        let k = purge_and_sync-kept cfg client is_clean w now (served es) in
        let s = served es in
        let p =
          purge-IsPurged w.store_json w.entry_order w.purge_io now s.store s.disk
            (served-Holds es).valid in
        ap (λ a. a.0.entries) (k ∙ purge_logged-kept cfg client is_clean w now s) ∙ p.left

    unexpired-IsCurrent :
        (es : List Event) (now : Time) (m : Dict Entry)
        → All (Origin es st) m
        → All (IsCurrent es now) (unexpired now m)
    unexpired-IsCurrent es now m h =
        All-map _ (IsCurrent es now) (unexpired now m) (λ x e. (lt-not-expired now x.1 e.0, e.1))
          (All-and _ (Origin es st) (unexpired now m)
            (All-select_self (λ x. not (expired now x.1)) m)
            (All-select (Origin es st) (λ x. not (expired now x.1)) m h))

    -- From the store that New opens, after any requests and ticks, a purge tick leaves only records
    -- that expire later than the time of the tick, each one of the start, or last recorded by one
    -- of these requests, which was admitted, and expiring a time to live after that.
    pub tick-IsCurrent :
        (es : List Event) (w : World) (now : Time)
        → All
            (IsCurrent es now)
            (step cfg client is_clean (purge_tick w now) (served es)).store.entries
    unfolding after_tick
    tick-IsCurrent es w now =
        rw (tick-entries es w now)
          (unexpired-IsCurrent es now (served es).store.entries (served-Holds es).origin)
