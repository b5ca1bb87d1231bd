-- ===== src/Server/Push.antt =====
-- doPush, purgeAndSync and reconcileSync.
use nft_auth_whitelist.Prelude.{
  ℕ, suc, ltb, Option, none, some, List, [], ◌∷◌, ◌++◌, false, if◌then◌else◌, length,
}
use nft_auth_whitelist.Prelude.Int.{pos, negsuc, ltb_ℤ, leb_ℤ}
use nft_auth_whitelist.Text.{Text, text}
use nft_auth_whitelist.Clock.{Time, Duration, seconds}
use nft_auth_whitelist.Signer.{Envelope}
use nft_auth_whitelist.Audit.{
  Log, Value, log, str, num, count, push_start, push_success, push_fail, push_reconcile,
  entry_expire,
}
use nft_auth_whitelist.Audit
use nft_auth_whitelist.SshPush.{Target, PushResult, push}
use nft_auth_whitelist.Config.{PushTarget, strict_host_key}
use nft_auth_whitelist.Store
use nft_auth_whitelist.Store.{build_envelope, purge}
use nft_auth_whitelist.Server.Defs.{Server, ServerConfig, World, Notice}
use nft_auth_whitelist.Server.Redact.{redact_secrets}

-- envelopeTTL, 5 minutes.
abbrev pub envelope_ttl : Duration
envelope_ttl = pos 300000000000

abbrev target_fields : Target → List (Text × Value)
target_fields t =
    (text "target", str t.name) ∷ (text "host", str t.host) ∷ (text "port", num t.port) ∷ []

abbrev failure_fields : PushResult → List (Text × Value)
failure_fields r =
    (text "duration_ms", num r.duration_ms)
    ∷ (text "reason", str r.reason)
    ∷ (text "exit_status", num r.exit_status)
    ∷ []

-- The result for a target that the budget does not reach.
unfoldable pub exhausted : Target → PushResult
exhausted t = record {
  name = t.name;
  host = t.host;
  port = t.port;
  duration_ms = pos 0;
  ok = false;
  exit_status = negsuc 0;
  stdout = [];
  reason = text "push budget exhausted";
}

unfoldable pub timeout_for : ServerConfig → Duration → Duration
timeout_for cfg remaining =
    let target_timeout = seconds cfg.push.timeout_seconds in
    if ltb_ℤ remaining target_timeout then remaining else target_timeout

unfoldable pub redacted : ServerConfig → PushResult → PushResult
redacted cfg r = record r {
  stdout = redact_secrets cfg r.stdout;
  reason = redact_secrets cfg r.reason;
}

-- The log and the notices after a push.
unfoldable pub push_done : ℕ → Target → PushResult → Server → Server
push_done entries t r s =
    if r.ok
    then record s {
      audit =
          log push_success Audit.fine
            (target_fields t
              ++ ((text "duration_ms", num r.duration_ms)
                  ∷ (text "stdout", str r.stdout)
                  ∷ (text "entries", count entries)
                  ∷ []))
            s.audit;
    }
    else record s {
      audit = log push_fail Audit.warn (target_fields t ++ failure_fields r) s.audit;
      notices =
          s.notices
          ++ (let n : Notice = record {
            event = text "push.fail";
            fields = (text "target", str t.name) ∷ (text "reason", str r.reason) ∷ [];
          } in
              n)
            ∷ [];
    }

abbrev pub audited : Server → Log → Server
audited s al = record s { audit = al }

-- The target of ssh for one of the configuration.
unfoldable pub ssh_target : PushTarget → Target
unfolding strict_host_key
ssh_target tc = record {
  name = tc.name;
  user = tc.user;
  host = tc.host;
  port = tc.port;
  identity_file = tc.identity_file;
  strict_host_key_checking = strict_host_key tc;
  known_hosts_file = tc.known_hosts_file;
}

-- One round of the loop over the targets.
unfoldable pub push_target :
    ServerConfig → World → Text → ℕ → ℕ → PushTarget → Server → PushResult × Server
unfolding exhausted timeout_for redacted push_done ssh_target
push_target cfg w payload entries n tc s =
    let t = ssh_target tc in
    let remaining = w.until n in
    let r = redacted cfg (push w.ssh t payload (timeout_for cfg remaining)) in
    if leb_ℤ remaining (pos 0)
    then (
      exhausted t,
      audited s
          (log push_fail Audit.warn (target_fields t ++ failure_fields (exhausted t)) s.audit),
    )
    else (
      r,
      push_done entries t r (audited s (log push_start Audit.fine (target_fields t) s.audit)),
    )

unfoldable pub push_loop :
    ServerConfig → World → Text → ℕ → ℕ → List PushTarget → Server → List PushResult × Server
unfolding push_target
push_loop cfg w payload entries n [] s = ([], s)
push_loop cfg w payload entries n (t ∷ ts) s =
    let (r, s') = push_target cfg w payload entries n t s in
    let (rs, s'') = push_loop cfg w payload entries (suc n) ts s' in (r ∷ rs, s'')

abbrev envelope_failure : Text → PushResult
envelope_failure reason = record {
  name = text "(envelope)";
  host = [];
  port = pos 0;
  duration_ms = pos 0;
  ok = false;
  exit_status = pos 0;
  stdout = [];
  reason = reason;
}

abbrev fail_envelope : Text → Text → Server → List PushResult × Server
fail_envelope logged shown s = (
  envelope_failure shown ∷ [],
  audited s (log push_fail Audit.error ((text "reason", str logged) ∷ []) s.audit),
)

unfoldable pub push_payload :
    ServerConfig → World → Envelope → Option Text → Server → List PushResult × Server
unfolding push_loop
push_payload cfg w env none s =
    fail_envelope (text "marshal envelope failed") (text "internal error marshalling envelope") s
push_payload cfg w env (some payload) s =
    push_loop cfg w payload (length env.entries) 0 cfg.push.targets s

unfoldable pub push_envelope :
    ServerConfig → World → Option Envelope → Server → List PushResult × Server
unfolding push_payload
push_envelope cfg w none s =
    fail_envelope (text "build envelope failed") (text "internal error building envelope") s
push_envelope cfg w (some env) s = push_payload cfg w env (w.marshal_envelope env) s

-- `doPushWithBudget` with the budget of `doPush`, as `until` tells it.
unfoldable pub do_push : ServerConfig → World → Time → Server → List PushResult × Server
unfolding push_envelope
do_push cfg w now s =
    push_envelope cfg w
      (build_envelope w.crypto w.entry_order now envelope_ttl cfg.hmac_secret s.store) s

-- A record for each CIDR, in order.
unfoldable pub log_expired : List Text → List (Text × Value) → Log → Log
log_expired [] more al = al
log_expired (c ∷ cs) more al =
    log_expired cs more (log entry_expire Audit.fine ((text "cidr", str c) ∷ more) al)

-- `Purge` and the records of what it removed.
unfoldable pub purge_logged : World → Time → Server → List Text × Server
unfolding log_expired
purge_logged w now s =
    let (removed, store, disk) = purge w.store_json w.entry_order w.purge_io now s.store s.disk in
    (removed, record s { store = store; disk = disk; audit = log_expired removed [] s.audit })

unfoldable pub purge_and_sync : ServerConfig → World → Time → Server → List Text × Server
unfolding purge_logged do_push
purge_and_sync cfg w now s =
    let (removed, s') = purge_logged w now s in
    (
      removed,
      if ltb 0 (length removed)
          then (if cfg.push.enabled then (do_push cfg w now s').1 else s')
          else s',
    )

unfoldable pub reconcile_sync : ServerConfig → World → Time → Server → Server
unfolding purge_logged do_push
reconcile_sync cfg w now s =
    let s' = (purge_logged w now s).1 in
    let al =
      log push_reconcile Audit.fine ((text "entries", count (Store.count s'.store)) ∷ [])
        s'.audit in
    if cfg.push.enabled then (do_push cfg w now (audited s' al)).1 else s'
