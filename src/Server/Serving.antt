-- ===== src/Server/Serving.antt =====
-- What the exports give away, and to whom.
use mathlib.Core.List.Permᴰ
use nft_auth_whitelist.Prelude.{
  ◌⊎◌, ◌≢◌, Bool, Option, none, some, List, map, Permᴰ, sym, ◌≡◌, inl, inr, refl, ap, ◌∙◌, true,
  arith, Bool-cases,
}
use nft_auth_whitelist.Prelude.Sort.{IsSorted, sort, sort-perm, sort-IsSorted}
use nft_auth_whitelist.Text.{Text, text, text_eq, text_lt, text_lt-IsOrder}
use nft_auth_whitelist.Clock.{Time}
use nft_auth_whitelist.ClientIp.{Extractor}
use nft_auth_whitelist.Signer.{Envelope}
use nft_auth_whitelist.Auth.{check_bearer}
use nft_auth_whitelist.Store.{build_envelope, snapshot}
use nft_auth_whitelist.Store.Snapshot.{current, snapshot-perm}
use nft_auth_whitelist.Server.Defs.{Server, ServerConfig, Request, World, body, Export, Page}
use nft_auth_whitelist.Server.Push.{envelope_ttl}
use nft_auth_whitelist.Server.Root.{handle_root}
use nft_auth_whitelist.Server.Exports.{
  handle_allow_json, handle_allow_txt, with_newline, serve_envelope, serve_json,
}
use nft_auth_whitelist.Server.Program.{
  export, exported, shown, health_body, health, redirected, handle,
}

-- The body is the JSON of an envelope that is signed for this moment, for the holder of the token.
pub record IsServed (cfg : ServerConfig) (w : World) (now : Time) (r : Request) (s : Server)
    (b : Text) : Type 0 where
  pub bearer : check_bearer w.sha r.authorization cfg.pull_token ≡ true
  pub env : Envelope
  pub signed :
      build_envelope w.crypto w.entry_order now envelope_ttl cfg.hmac_secret s.store ≡ some env
  pub shown : w.marshal_indent env ≡ some b

-- The body has a line for each CIDR that the current entries have, in ascending order, for the holder
-- of the token.
pub record IsListed (cfg : ServerConfig) (w : World) (now : Time) (r : Request) (s : Server)
    (b : Text) : Type 0 where
  pub bearer : check_bearer w.sha r.authorization cfg.pull_token ≡ true
  pub cidrs : List Text
  pub shown : b ≡ with_newline cidrs
  pub ascending : IsSorted text_lt cidrs
  pub exact : Permᴰ cidrs (map (λ e. e.cidr) (current now s.store.entries))

module _ (cfg : ServerConfig) (w : World) (now : Time) (r : Request) (s : Server) where
  abbrev built : Option Envelope
  built = build_envelope w.crypto w.entry_order now envelope_ttl cfg.hmac_secret s.store

  json_cases :
      (b : Text) (env : Envelope) (o : Option Text)
      → check_bearer w.sha r.authorization cfg.pull_token ≡ true
      → built ≡ some env
      → w.marshal_indent env ≡ o
      → (serve_json cfg w now r env o s).0 ≡ body b
      → IsServed cfg w now r s b
  unfolding serve_json
  json_cases b env none t n m h = absurd (cc)
  json_cases b env (some x) t n m h =
      let x' : x ≡ b = cc in record { bearer = t; env = env; signed = n; shown = m ∙ ap some x' }

  envelope_cases :
      (b : Text) (o : Option Envelope)
      → check_bearer w.sha r.authorization cfg.pull_token ≡ true
      → built ≡ o
      → (serve_envelope cfg w now r o s).0 ≡ body b
      → IsServed cfg w now r s b
  unfolding serve_envelope
  envelope_cases b none t n h = absurd (cc)
  envelope_cases b (some env) t n h = json_cases b env (w.marshal_indent env) t n refl h

  -- If the handler of /allow.json answers with a body, then the request has the bearer token, and
  -- the body is the JSON of the envelope that BuildEnvelope signs for the store at that time.
  pub handle_allow_json-IsServed :
      (b : Text) → (handle_allow_json cfg w now r s).0 ≡ body b → IsServed cfg w now r s b
  unfolding handle_allow_json
  handle_allow_json-IsServed b h =
      elim (Bool-cases (check_bearer w.sha r.authorization cfg.pull_token)) [
        | inr f ↦ absurd (ground (arith, f))
        | inl t ↦ envelope_cases b built t refl (ground (arith, t))
      ]

  handle_allow_txt-IsListed :
      (b : Text) → (handle_allow_txt cfg w now r s).0 ≡ body b → IsListed cfg w now r s b
  unfolding handle_allow_txt
  handle_allow_txt-IsListed b h =
      elim (Bool-cases (check_bearer w.sha r.authorization cfg.pull_token)) [
        | inr f ↦ absurd (ground (arith, f))
        | inl t ↦
            let cidrs = map (λ e. e.cidr) (snapshot w.entry_order now s.store) in
            let same : with_newline (sort text_lt cidrs) ≡ b = ground (arith, t) in
            record {
              bearer = t;
              cidrs = sort text_lt cidrs;
              shown = sym same;
              ascending = sort-IsSorted text_lt-IsOrder cidrs;
              exact =
                  Permᴰ.trans (sort-perm text_lt cidrs)
                    (Permᴰ.map _ (snapshot-perm w.entry_order now s.store));
            }
      ]

  module _ (client : Extractor) (is_clean : Text → Bool) where
    exported_body :
        (a : Export × Server) (b : Text) → (exported a).0 ≡ export (body b) → a.0 ≡ body b
    exported_body (e, t) b h = cc

    no_export : (a : Page × Server) (x : Export) → (shown a).0 ≢ export x
    no_export (q, t) x h = absurd (cc)

    -- If the server answers a request with the body of an export, then the request has the bearer
    -- token, and the body is the JSON of the envelope that BuildEnvelope signs for the store at
    -- that time, or has a line for each CIDR of the store's current entries, in ascending order.
    pub handle-IsExported :
        (b : Text)
        → (handle cfg client is_clean w now r s).0 ≡ export (body b)
        → IsServed cfg w now r s b ⊎ IsListed cfg w now r s b
    unfolding handle
    handle-IsExported b h = elim (Bool-cases (is_clean r.path)) [
      | inr e ↦ let no : redirected ≡ export (body b) = simp (handle, e) at h in absurd (cc)
      | inl e ↦ elim (Bool-cases (text_eq r.path (text "/allow.json"))) [
        | inl j ↦ inl (
            handle_allow_json-IsServed b
              (exported_body (handle_allow_json cfg w now r s) b (simp (handle, e, j) at h)))
        | inr j ↦ elim (Bool-cases (text_eq r.path (text "/allow.txt"))) [
          | inl t ↦ inr (
              handle_allow_txt-IsListed b
                (exported_body (handle_allow_txt cfg w now r s) b (simp (handle, e, j, t) at h)))
          | inr t ↦ elim (Bool-cases (text_eq r.path (text "/health"))) [
            | inl k ↦
                let no : health health_body ≡ export (body b) = simp (handle, e, j, t, k) at h in
                absurd (cc)
            | inr k ↦
                absurd (no_export (handle_root cfg w client r s) _ (simp (handle, e, j, t, k) at h))
          ]
        ]
      ]
    ]
