-- ===== src/Puller/Secrecy.antt =====
-- What stands behind a question mark in a URL that gets a response reaches no output of a cycle.
use nft_auth_whitelist.Prelude.{
  ℕ, sym, none, some, List, [], ◌∷◌, ◌++◌, ◌≡◌, ◌≢◌, refl, ap, ◌∙◌, arith, All, Bool-cases, inl,
  inr, Option, if◌then◌else◌,
}
use nft_auth_whitelist.Text.{Text, text, cut-append, has_prefix, lower}
use nft_auth_whitelist.Clock.{Time}
use nft_auth_whitelist.Signer.{Crypto}
use nft_auth_whitelist.Net.Ip.{AddressSyntax}
use nft_auth_whitelist.AtomicFile.{Disk}
use nft_auth_whitelist.Audit.{Log}
use nft_auth_whitelist.Receive.{EnvelopeJson}
use nft_auth_whitelist.Pipeline.{StateJson, Verdict, WriteError, rejected, filtered}
use nft_auth_whitelist.Puller.Defs.{
  PullerConfig, Options, World, response, Fetched, fetch_failed, fetched, source_label, redact_url,
  redact_cut, fetch_envelope, fetch_envelope_http, read_envelope_file, apply_allowed,
  build_nft_script,
}
use nft_auth_whitelist.Puller.Run.{
  dry_run_report, apply_guard, after_outputs, after_verdict, after_fetch, is_refused, run_once,
}

abbrev query : Text → Text → Text
query before secret = before ++ b'?' ∷ secret

redact_url-append :
    (before secret other : Text)
    → All (λ c. c ≢ b'?') before
    → redact_url (query before secret) ≡ redact_url (query before other)
unfolding redact_url redact_cut
redact_url-append before secret other h =
    rw (redact_url, cut-append b'?' before secret h, cut-append b'?' before other h)

-- A prefix without a question mark ends in front of the first one.
has_prefix-append :
    (before secret other p : Text)
    → All (λ c. c ≢ b'?') p
    → has_prefix (lower (before ++ b'?' ∷ secret)) p ≡ has_prefix (lower (before ++ b'?' ∷ other)) p
unfolding has_prefix lower
has_prefix-append before secret other [] h = ground arith
has_prefix-append [] secret other (c ∷ p) h = ground (arith, h.0)
has_prefix-append (b ∷ before) secret other (c ∷ p) h =
    ground (arith, has_prefix-append before secret other p h.1)

no_mark : All (λ c. c ≢ b'?') (text "https://")
no_mark = ground arith

abbrev pub with_url : PullerConfig → Text → PullerConfig
with_url cfg url = record cfg { server_url = url }

module _ (crypto : Crypto) (syn : AddressSyntax) (env_json : EnvelopeJson) (json : StateJson)
    (opts : Options) (w : World) (now : Time) (cfg : PullerConfig) (u v : Text)
    (label : source_label (with_url cfg u) ≡ source_label (with_url cfg v)) where
  same_outputs :
      (cidrs loaded : List Text) (r : Option WriteError × Disk × Log)
      → after_outputs crypto syn env_json json opts w (with_url cfg u) cidrs loaded r
        ≡ after_outputs crypto syn env_json json opts w (with_url cfg v) cidrs loaded r
  unfolding after_outputs apply_guard apply_allowed build_nft_script
  same_outputs cidrs loaded (none, d, al) = refl
  same_outputs cidrs loaded (some e, d, al) = refl

  same_verdict :
      (d : Disk) (loaded : List Text) (r : Verdict × Log)
      → after_verdict crypto syn env_json json opts w now (with_url cfg u) d loaded r
        ≡ after_verdict crypto syn env_json json opts w now (with_url cfg v) d loaded r
  unfolding after_verdict dry_run_report build_nft_script
  same_verdict d loaded (rejected e, al) = refl
  same_verdict d loaded (filtered res, al) = rw label (
      ap
        (λ f.
          if opts.dry_run
          then dry_run_report crypto syn env_json json (with_url cfg v) res.cidrs d al loaded
          else f)
        (same_outputs res.cidrs loaded _))

  same_fetch :
      (d : Disk) (al : Log) (loaded : List Text) (r : Fetched)
      → after_fetch crypto syn env_json json opts w now (with_url cfg u) d al loaded r
        ≡ after_fetch crypto syn env_json json opts w now (with_url cfg v) d al loaded r
  unfolding after_fetch
  same_fetch d al loaded (fetch_failed e) = rw label
  same_fetch d al loaded (fetched env) = rw label (same_verdict d loaded _)

module _ (crypto : Crypto) (syn : AddressSyntax) (env_json : EnvelopeJson) (json : StateJson)
    (opts : Options) (w : World) (now : Time) (cfg : PullerConfig) (before secret other : Text)
    (d : Disk) (al : Log) (loaded : List Text) where
  same_label :
      All (λ c. c ≢ b'?') before
      → source_label (with_url cfg (query before secret))
        ≡ source_label (with_url cfg (query before other))
  unfolding source_label
  same_label h = rw (source_label, redact_url-append before secret other h)

  same_refusal :
      is_refused (with_url cfg (query before secret))
      ≡ is_refused (with_url cfg (query before other))
  unfolding is_refused
  same_refusal = rw (is_refused, has_prefix-append before secret other (text "https://") no_mark)

  same_source :
      w.get (query before secret) cfg.pull_token ≡ w.get (query before other) cfg.pull_token
      → fetch_envelope env_json w (with_url cfg (query before secret)) d
        ≡ fetch_envelope env_json w (with_url cfg (query before other)) d
  unfolding fetch_envelope fetch_envelope_http read_envelope_file
  same_source h = ground (arith, h)

  -- If two URLs that differ only behind their first question mark get the same response, with a
  -- status and a body that may break off, then a pull cycle ends alike for both: in its error, the
  -- disk, the audit log with the reasons of a failed fetch, the guards and the output.
  pub run_once_secret :
      (status : ℕ) (body : Text) (broken : Option Text)
      → All (λ c. c ≢ b'?') before
      → w.get (query before secret) cfg.pull_token ≡ response status body broken
      → w.get (query before other) cfg.pull_token ≡ response status body broken
      → run_once crypto syn env_json json opts w now
          (with_url cfg (query before secret))
          d
          al
          loaded
        ≡ run_once crypto syn env_json json opts w now
            (with_url cfg (query before other))
            d
            al
            loaded
  unfolding run_once
  run_once_secret status body broken h k l =
      let label = same_label h in
      let fetch =
        same_fetch crypto syn env_json json opts w now cfg (query before secret)
          (query before other) label d al loaded in
      elim (Bool-cases (is_refused (with_url cfg (query before other)))) [
        | inl t ↦ simp (run_once, same_refusal, t, label)
        | inr t ↦
            rw (run_once, same_refusal, t)
              (ap
                  (after_fetch crypto syn env_json json opts w now
                    (with_url cfg (query before secret)) d al loaded)
                  (same_source (k ∙ sym l))
                ∙ fetch _)
      ]
