-- ===== src/Puller/Run.antt =====
-- runOnce, step by step.
use nft_auth_whitelist.Prelude.{
  Option, none, some, List, [], ◌∷◌, ◌++◌, Bool, not, ◌&&◌, if◌then◌else◌, length,
}
use nft_auth_whitelist.Text.{Text, text, lower, has_prefix, itoa}
use nft_auth_whitelist.Clock.{Time}
use nft_auth_whitelist.Signer.{Envelope, Crypto}
use nft_auth_whitelist.Net.Ip.{AddressSyntax}
use nft_auth_whitelist.AtomicFile.{Disk}
use nft_auth_whitelist.Audit.{
  Log, Level, log, str, count, pull_success, pull_fail, nft_dry_run, nft_apply_success,
  nft_apply_fail,
}
use nft_auth_whitelist.Audit
use nft_auth_whitelist.Nft
use nft_auth_whitelist.Nft.{ApplyError}
use nft_auth_whitelist.Receive.{EnvelopeJson}
use nft_auth_whitelist.Pipeline.{
  StateJson, Verdict, WriteError, rejected, filtered, verify_and_filter, write_outputs,
}
use nft_auth_whitelist.Puller.Defs.{
  PullerConfig, Options, World, FetchError, reason, not_https, not_fetched, Fetched, Finish,
  fetch_failed, fetched, not_verified, not_exported, not_applied, is_file, source_label,
  pipeline_params, apply_allowed, fetch_envelope, build_nft_script,
}

-- The lines that a dry run prints for the CIDRs.
unfoldable pub print_lines : List Text → Text
print_lines [] = []
print_lines (c ∷ cs) = c ++ (text "\n" ++ print_lines cs)

abbrev pull_failed : PullerConfig → FetchError → Level → Disk → Log → List Text → Finish
pull_failed cfg e level d al loaded = record {
  error = some (not_fetched e);
  disk = d;
  audit =
      log pull_fail level
        ((text "reason", str (reason e)) ∷ (text "source", str (source_label cfg)) ∷ []) al;
  loaded = loaded;
  stdout = [];
}

-- The record of a fetched envelope.
abbrev pub pulled : Envelope → Log → Log
pulled env = log pull_success Audit.fine ((text "entries", count (length env.entries)) ∷ [])

-- An HTTP source that has to be https and is not.
unfoldable pub is_refused : PullerConfig → Bool
is_refused cfg =
    not (is_file cfg)
    && (cfg.require_https && not (has_prefix (lower cfg.server_url) (text "https://")))

module _ (crypto : Crypto) (syn : AddressSyntax) (env_json : EnvelopeJson) (json : StateJson) where
  unfoldable pub dry_run_report : PullerConfig → List Text → Disk → Log → List Text → Finish
  unfolding print_lines
  dry_run_report cfg cidrs d al loaded = record {
    error = none;
    disk = d;
    audit = log nft_dry_run Audit.fine ((text "entries", count (length cidrs)) ∷ []) al;
    loaded = loaded;
    stdout =
        text "# dry-run: "
        ++ (itoa (length cidrs)
            ++ (text " valid entries (no files written)\n# allow.txt would contain:\n"
                ++ (print_lines cidrs
                    ++ (text "\n# nft guard script (dry-run, not applied):\n"
                        ++ (build_nft_script syn cfg cidrs ++ text "\n")))));
  }

  unfoldable pub after_apply : List Text → Disk → Log → Option ApplyError × List Text → Finish
  after_apply cidrs d al (some e, loaded) = record {
    error = some (not_applied e);
    disk = d;
    audit = log nft_apply_fail Audit.error [] al;
    loaded = loaded;
    stdout = [];
  }
  after_apply cidrs d al (none, loaded) = record {
    error = none;
    disk = d;
    audit = log nft_apply_success Audit.fine ((text "entries", count (length cidrs)) ∷ []) al;
    loaded = loaded;
    stdout = [];
  }

  abbrev ignored_warning : Text
  ignored_warning =
      text
        "WARN: --apply ignored because nft guard is not enabled in config (mode=nft or nft.enabled=true required)\n"

  unfoldable pub apply_guard :
      Options → World → PullerConfig → List Text → Disk → Log → List Text → Finish
  unfolding after_apply
  apply_guard opts w cfg cidrs d al loaded =
      if opts.apply
      then (if apply_allowed cfg
          then after_apply cidrs d al (Nft.apply w.nft (build_nft_script syn cfg cidrs) loaded)
          else record {
            error = none;
            disk = d;
            audit =
                log nft_apply_fail Audit.warn
                  ((
                    text "reason",
                    str (
                        text
                          "--apply ignored: nft guard not enabled (set mode=nft or nft.enabled=true)"),
                  )
                    ∷ [])
                  al;
            loaded = loaded;
            stdout = ignored_warning;
          })
      else record { error = none; disk = d; audit = al; loaded = loaded; stdout = [] }

  unfoldable pub after_outputs :
      Options
      → World
      → PullerConfig
      → List Text
      → List Text
      → Option WriteError × Disk × Log
      → Finish
  unfolding apply_guard
  after_outputs opts w cfg cidrs loaded (some e, d, al) = record {
    error = some (not_exported e);
    disk = d;
    audit = al;
    loaded = loaded;
    stdout = [];
  }
  after_outputs opts w cfg cidrs loaded (none, d, al) = apply_guard opts w cfg cidrs d al loaded

  unfoldable pub after_verdict :
      Options → World → Time → PullerConfig → Disk → List Text → Verdict × Log → Finish
  unfolding after_outputs dry_run_report
  after_verdict opts w now cfg d loaded (rejected e, al) = record {
    error = some (not_verified e);
    disk = d;
    audit = al;
    loaded = loaded;
    stdout = [];
  }
  after_verdict opts w now cfg d loaded (filtered res, al) =
      if opts.dry_run
      then dry_run_report cfg res.cidrs d al loaded
      else after_outputs opts w cfg res.cidrs loaded
          (write_outputs json w.state w.allow now res (pipeline_params cfg) d al)

  unfoldable pub after_fetch :
      Options → World → Time → PullerConfig → Disk → Log → List Text → Fetched → Finish
  unfolding after_verdict
  after_fetch opts w now cfg d al loaded (fetch_failed e) = pull_failed cfg e Audit.warn d al loaded
  after_fetch opts w now cfg d al loaded (fetched env) =
      after_verdict opts w now cfg d loaded
        (verify_and_filter crypto syn env (pipeline_params cfg) (pulled env al) now)

  unfoldable pub run_once : Options → World → Time → PullerConfig → Disk → Log → List Text → Finish
  unfolding after_fetch is_refused
  run_once opts w now cfg d al loaded =
      if is_refused cfg
      then pull_failed cfg not_https Audit.error d al loaded
      else after_fetch opts w now cfg d al loaded (fetch_envelope env_json w cfg d)
