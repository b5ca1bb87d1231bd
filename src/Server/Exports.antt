-- ===== src/Server/Exports.antt =====
-- handleAllowJSON and handleAllowTxt.
use nft_auth_whitelist.Prelude.{
  Option, none, some, List, [], ◌∷◌, ◌++◌, map, not, if◌then◌else◌, length,
}
use nft_auth_whitelist.Prelude.Sort.{sort}
use nft_auth_whitelist.Text.{Text, text, text_lt, join}
use nft_auth_whitelist.Clock.{Time}
use nft_auth_whitelist.Signer.{Envelope}
use nft_auth_whitelist.Auth.{check_bearer}
use nft_auth_whitelist.Audit.{Log, Value, log, str, count, pull_success, pull_fail}
use nft_auth_whitelist.Audit
use nft_auth_whitelist.Store.{build_envelope, snapshot}
use nft_auth_whitelist.Server.Defs.{
  Server, ServerConfig, Request, World, Export, denied, failed, body,
}
use nft_auth_whitelist.Server.Push.{envelope_ttl, audited}
use nft_auth_whitelist.Server.Root.{client_host}

abbrev endpoint : Request → Text → List (Text × Value)
endpoint r name =
    (text "peer", str (client_host r.client.remote_addr)) ∷ (text "endpoint", str name) ∷ []

abbrev refuse : Request → Text → Server → Export × Server
refuse r name s = (denied, audited s (log pull_fail Audit.warn (endpoint r name) s.audit))

abbrev serve : Request → Text → List (Text × Value) → Text → Server → Export × Server
serve r name more b s =
    (body b, audited s (log pull_success Audit.fine (endpoint r name ++ more) s.audit))

abbrev pub with_newline : List Text → Text
with_newline [] = []
with_newline (c ∷ cs) = join (text "\n") (c ∷ cs) ++ text "\n"

module _ (cfg : ServerConfig) (w : World) (now : Time) where
  unfoldable pub serve_json : Request → Envelope → Option Text → Server → Export × Server
  serve_json r env none s = (failed, s)
  serve_json r env (some b) s =
      serve r (text "/allow.json") ((text "entries", count (length env.entries)) ∷ []) b s

  unfoldable pub serve_envelope : Request → Option Envelope → Server → Export × Server
  unfolding serve_json
  serve_envelope r none s = (failed, s)
  serve_envelope r (some env) s = serve_json r env (w.marshal_indent env) s

  unfoldable pub handle_allow_json : Request → Server → Export × Server
  unfolding serve_envelope
  handle_allow_json r s =
      if not (check_bearer w.sha r.authorization cfg.pull_token)
      then refuse r (text "/allow.json") s
      else serve_envelope r
          (build_envelope w.crypto w.entry_order now envelope_ttl cfg.hmac_secret s.store) s

  unfoldable pub handle_allow_txt : Request → Server → Export × Server
  handle_allow_txt r s =
      let lines = sort text_lt (map (λ e. e.cidr) (snapshot w.entry_order now s.store)) in
      if not (check_bearer w.sha r.authorization cfg.pull_token)
      then refuse r (text "/allow.txt") s
      else serve r (text "/allow.txt") ((text "entries", count (length lines)) ∷ [])
          (with_newline lines) s
