-- ===== src/Server/Program.antt =====
-- cmd/auth-server/main.go and newServer: the server from its start on. Requests and the two tickers
-- run at the same time; the store's lock makes Purge and Record its only steps.
use nft_auth_whitelist.Prelude.{List, [], ◌∷◌, ◌≡◌, Bool, true, IsIn, not, ◌&&◌, if◌then◌else◌}
use nft_auth_whitelist.Prelude.Int.{pos, ltb_ℤ}
use nft_auth_whitelist.Text.{Text, text, text_eq}
use nft_auth_whitelist.Clock.{Time, seconds}
use nft_auth_whitelist.Net.Ip.{Ip, AddressSyntax}
use nft_auth_whitelist.AtomicFile.{Disk}
use nft_auth_whitelist.ClientIp
use nft_auth_whitelist.ClientIp.{Extractor}
use nft_auth_whitelist.RateLimit
use nft_auth_whitelist.Ipx.{cidr}
use nft_auth_whitelist.Config.{
  reconcile_interval, effective_trusted_proxy_cidrs, effective_client_ip_headers,
}
use nft_auth_whitelist.Store.{Store, record_entry, purge}
use nft_auth_whitelist.Server.Defs.{Server, ServerConfig, Request, World, Page, Export}
use nft_auth_whitelist.Server.Push.{purge_and_sync, reconcile_sync}
use nft_auth_whitelist.Server.Root.{handle_root, request_cidr}
use nft_auth_whitelist.Server.Exports.{handle_allow_json, handle_allow_txt}
use nft_auth_whitelist.Server.Access.{IsAdmitted}

-- What the handlers answer; a path that is not clean is redirected by the mux itself.
pub data Answer : Type 0 where
  page : Page → Answer
  export : Export → Answer
  health : Text → Answer
  redirected : Answer

-- `handleHealth`
abbrev pub health_body : Text
health_body = text "ok\n"

-- `newServer`: the extractor and the state of a server over a store.
unfoldable pub new_extractor : AddressSyntax → ServerConfig → Extractor
new_extractor syn cfg =
    let c : ClientIp.Config = record {
      trusted_proxy_cidrs =
          effective_trusted_proxy_cidrs cfg.trusted_proxy_cidrs cfg.trusted_proxies;
      headers =
          effective_client_ip_headers cfg.client_ip_headers cfg.real_ip_header
            cfg.trusted_proxy_cidrs;
    } in
    ClientIp.new syn c

unfoldable pub new_server : ServerConfig → Store → Disk → Server
new_server cfg st d = record {
  store = st;
  limiter = RateLimit.new cfg.rate_limit;
  disk = d;
  audit = [];
  notices = [];
}

abbrev pub exported : Export × Server → Answer × Server
exported (e, s) = (export e, s)

abbrev pub shown : Page × Server → Answer × Server
shown (p, s) = (page p, s)

-- What happens to the server: a request, or a tick of one of the two tickers.
pub data Event : Type 0 where
  request : World → Time → Request → Event
  purge_tick reconcile_tick : World → Time → Event

-- The reconcile ticker is there only if the push is on and its interval is positive.
unfoldable pub reconciles : ServerConfig → Bool
reconciles cfg = cfg.push.enabled && ltb_ℤ (pos 0) (reconcile_interval cfg.push)

module _ (cfg : ServerConfig) (client : Extractor) (is_clean : Text → Bool) where
  -- `Handler`: the mux sends all other paths to the handler of /.
  unfoldable pub handle : World → Time → Request → Server → Answer × Server
  handle w now r s =
      if not (is_clean r.path)
      then (redirected, s)
      else if text_eq r.path (text "/allow.json")
      then exported (handle_allow_json cfg w now r s)
      else if text_eq r.path (text "/allow.txt")
      then exported (handle_allow_txt cfg w now r s)
      else if text_eq r.path (text "/health")
      then (health health_body, s)
      else shown (handle_root cfg w client r s)

  unfoldable pub step : Event → Server → Server
  unfolding handle reconciles
  step (request w now r) s = (handle w now r s).1
  step (purge_tick w now) s = (purge_and_sync cfg w now s).1
  step (reconcile_tick w now) s = if reconciles cfg then reconcile_sync cfg w now s else s

  -- The events one after the other.
  unfoldable pub serve : List Event → Server → Server
  unfolding step
  serve [] s = s
  serve (e ∷ es) s = serve es (step e s)

  abbrev pub purge_at : World → Time → Store × Disk → Store × Disk
  purge_at w now a = let r = purge w.store_json w.entry_order w.purge_io now a.0 a.1 in (r.1, r.2)

  abbrev pub record_at : World → Ip → Text → Store × Disk → Store × Disk
  record_at w ip range a =
      let l =
        record_entry w.store_json w.entry_order w.record_io range (w.syn.format ip)
          (text "web_auth") w.recorded_at (seconds cfg.ttl_seconds) a.0 a.1 in
      (l.store, l.disk)

  -- A step of the store, in the order in which the lock lets them through, by what happens to the
  -- server: a tick purges; an admitted request purges, and records its own address.
  pub data Step (a b : Store × Disk) : Event → Type 0 where
    purged_tick : (w : World) (now : Time) → b ≡ purge_at w now a → Step a b (purge_tick w now)
    reconciled :
        (w : World) (now : Time)
        → reconciles cfg ≡ true
        → b ≡ purge_at w now a
        → Step a b (reconcile_tick w now)
    purged :
        (w : World) (now : Time) (r : Request) (ip : Ip)
        → IsAdmitted cfg w client r ip
        → b ≡ purge_at w w.purged_at a
        → Step a b (request w now r)
    recorded :
        (w : World) (now : Time) (r : Request) (ip : Ip) (range : Text)
        → IsAdmitted cfg w client r ip
        → request_cidr cfg w r ip ≡ cidr range
        → b ≡ record_at w ip range a
        → Step a b (request w now r)

  -- Steps of the given events, in any order.
  pub data Reach (es : List Event) (a : Store × Disk) : Store × Disk → Type 0 where
    here : Reach es a a
    next : {b c : Store × Disk} (e : Event) → IsIn e es → Reach es a b → Step b c e → Reach es a c
