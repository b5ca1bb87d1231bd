-- ===== src/Server/Steps.antt =====
-- However the requests and the ticks of a run interleave, the store only ever takes steps of Purge
-- and of Record for admitted requests.
use nft_auth_whitelist.Prelude.{
  ltb, length, Option, none, some, List, [], ◌∷◌, ◌≡◌, refl, sym, subst, Bool, inl, inr, Bool-cases,
  IsIn, ◌∙◌,
}
use nft_auth_whitelist.Text.{Text, text, text_eq}
use nft_auth_whitelist.Clock.{Time}
use nft_auth_whitelist.AtomicFile.{Disk}
use nft_auth_whitelist.ClientIp.{Extractor}
use nft_auth_whitelist.Auth.{check_bearer}
use nft_auth_whitelist.Store.{Store}
use nft_auth_whitelist.Signer.{Envelope}
use nft_auth_whitelist.Server.Defs.{Server, ServerConfig, Request, World}
use nft_auth_whitelist.Server.Push.{purge_logged, purge_and_sync, reconcile_sync, do_push}
use nft_auth_whitelist.Server.Pushing.{do_push-IsPush}
use nft_auth_whitelist.Server.Exports.{
  handle_allow_json, handle_allow_txt, serve_envelope, serve_json,
}
use nft_auth_whitelist.Server.Access.{handle_root-Access}
use nft_auth_whitelist.Server.Root.{handle_root}
use nft_auth_whitelist.Server.Program.{
  Event, request, purge_tick, reconcile_tick, handle, reconciles, step, serve, purge_at, purged,
  recorded, purged_tick, reconciled, Reach, here, next,
}

-- What the lock guards.
abbrev pub kept : Server → Store × Disk
kept s = (s.store, s.disk)

module _ (cfg : ServerConfig) (client : Extractor) (is_clean : Text → Bool) where
  abbrev Reaches : List Event → Store × Disk → Store × Disk → Type 0
  Reaches = Reach cfg client is_clean

  Reach-trans :
      {es : List Event} {a b c : Store × Disk} → Reaches es a b → Reaches es b c → Reaches es a c
  Reach-trans r here = r
  Reach-trans r (next e i q st) = next e i (Reach-trans r q) st

  Reach_of_eq : (es : List Event) (a b : Store × Disk) → b ≡ a → Reaches es a b
  Reach_of_eq es a b e = subst (λ x. Reaches es a x) (sym e) here

  pub purge_logged-kept :
      (w : World) (now : Time) (s : Server)
      → kept (purge_logged w now s).1 ≡ purge_at cfg client is_clean w now (kept s)
  unfolding purge_logged
  purge_logged-kept w now s = refl

  pushed-kept : (w : World) (now : Time) (s : Server) → kept (do_push cfg w now s).1 ≡ kept s
  pushed-kept w now s = let k = (do_push-IsPush cfg w now s).0 in cc (k.store, k.disk)

  pub purge_and_sync-kept :
      (w : World) (now : Time) (s : Server)
      → kept (purge_and_sync cfg w now s).1 ≡ kept (purge_logged w now s).1
  unfolding purge_and_sync
  purge_and_sync-kept w now s = elim (Bool-cases (ltb 0 (length (purge_logged w now s).0))) [
    | inr a ↦ simp (purge_and_sync, a)
    | inl a ↦ elim (Bool-cases cfg.push.enabled) [
      | inr b ↦ simp (purge_and_sync, a, b)
      | inl b ↦ simp (purge_and_sync, a, b) (pushed-kept w now _)
    ]
  ]

  reconcile_sync-kept :
      (w : World) (now : Time) (s : Server)
      → kept (reconcile_sync cfg w now s) ≡ kept (purge_logged w now s).1
  unfolding reconcile_sync
  reconcile_sync-kept w now s = elim (Bool-cases cfg.push.enabled) [
    | inr b ↦ simp (reconcile_sync, b)
    | inl b ↦ simp (reconcile_sync, b) (pushed-kept w now _)
  ]

  serve_json-kept :
      (w : World) (now : Time) (r : Request) (env : Envelope) (o : Option Text) (s : Server)
      → kept (serve_json cfg w now r env o s).1 ≡ kept s
  unfolding serve_json
  serve_json-kept w now r env none s = refl
  serve_json-kept w now r env (some b) s = refl

  serve_envelope-kept :
      (w : World) (now : Time) (r : Request) (o : Option Envelope) (s : Server)
      → kept (serve_envelope cfg w now r o s).1 ≡ kept s
  unfolding serve_envelope
  serve_envelope-kept w now r none s = refl
  serve_envelope-kept w now r (some env) s = serve_json-kept w now r env (w.marshal_indent env) s

  allow_json-kept :
      (w : World) (now : Time) (r : Request) (s : Server)
      → kept (handle_allow_json cfg w now r s).1 ≡ kept s
  unfolding handle_allow_json
  allow_json-kept w now r s =
      elim (Bool-cases (check_bearer w.sha r.authorization cfg.pull_token)) [
        | inr b ↦ simp (handle_allow_json, b)
        | inl b ↦ simp (handle_allow_json, b) (serve_envelope-kept w now r _ s)
      ]

  allow_txt-kept :
      (w : World) (now : Time) (r : Request) (s : Server)
      → kept (handle_allow_txt cfg w now r s).1 ≡ kept s
  unfolding handle_allow_txt
  allow_txt-kept w now r s = elim (Bool-cases (check_bearer w.sha r.authorization cfg.pull_token)) [
    | inr b ↦ simp (handle_allow_txt, b)
    | inl b ↦ simp (handle_allow_txt, b)
  ]

  module _ (es : List Event) where
    root-Reach :
        (w : World) (now : Time) (r : Request) (s : Server)
        → IsIn (request w now r) es
        → Reaches es (kept s) (kept (handle_root cfg w client r s).1)
    root-Reach w now r s i = elim (handle_root-Access cfg w client r s) [
      | inl u ↦ Reach_of_eq es _ _ (cc (u.store, u.disk))
      | inr (inr p) ↦
          next _ i here (
            purged w now r p.ip p.admitted
              (cc (p.store, p.disk, purge_logged-kept w w.purged_at s)))
      | inr (inl k) ↦
          next _ i
            (next _ i here (purged w now r k.ip k.admitted (purge_logged-kept w w.purged_at s)))
            (recorded w now r k.ip k.range k.admitted k.allowed (cc (k.store, k.disk)))
    ]

    handle-Reach :
        (w : World) (now : Time) (r : Request) (s : Server)
        → IsIn (request w now r) es
        → Reaches es (kept s) (kept (handle cfg client is_clean w now r s).1)
    unfolding handle
    handle-Reach w now r s i = elim (Bool-cases (is_clean r.path)) [
      | inr a ↦ simp (handle, a) here
      | inl a ↦ elim (Bool-cases (text_eq r.path (text "/allow.json"))) [
        | inl b ↦ simp (handle, a, b) (Reach_of_eq es _ _ (allow_json-kept w now r s))
        | inr b ↦ elim (Bool-cases (text_eq r.path (text "/allow.txt"))) [
          | inl d ↦ simp (handle, a, b, d) (Reach_of_eq es _ _ (allow_txt-kept w now r s))
          | inr d ↦ elim (Bool-cases (text_eq r.path (text "/health"))) [
            | inl e ↦ simp (handle, a, b, d, e) here
            | inr e ↦ simp (handle, a, b, d, e) (root-Reach w now r s i)
          ]
        ]
      ]
    ]

    step-Reach :
        (e : Event) (s : Server)
        → IsIn e es
        → Reaches es (kept s) (kept (step cfg client is_clean e s))
    unfolding step
    step-Reach (request w now r) s i = handle-Reach w now r s i
    step-Reach (purge_tick w now) s i =
        next _ i here (purged_tick w now (purge_and_sync-kept w now s ∙ purge_logged-kept w now s))
    step-Reach (reconcile_tick w now) s i = elim (Bool-cases (reconciles cfg)) [
      | inr a ↦ simp (step, a) here
      | inl a ↦
          simp (step, a)
            (next _ i here
              (reconciled w now a (reconcile_sync-kept w now s ∙ purge_logged-kept w now s)))
    ]

    serve-Reach_from :
        (us : List Event) (s : Server)
        → ((e : Event) → IsIn e us → IsIn e es)
        → Reaches es (kept s) (kept (serve cfg client is_clean us s))
    unfolding serve
    serve-Reach_from [] s h = here
    serve-Reach_from (e ∷ us) s h =
        Reach-trans (step-Reach e s (h e (inl refl)))
          (serve-Reach_from us (step cfg client is_clean e s) (λ f i. h f (inr i)))

  -- Whatever requests, purge ticks and reconcile ticks the server handles, its store and its disk
  -- change only by steps of these events: Purge by a tick or by a request among them that is
  -- admitted, and Record by a request among them that is admitted, for its own address and under a
  -- CIDR that CIDRForRequest allowed for it.
  pub serve-Reach :
      (es : List Event) (s : Server)
      → Reach cfg client is_clean es (kept s) (kept (serve cfg client is_clean es s))
  serve-Reach es s = serve-Reach_from es es s (λ e i. i)
