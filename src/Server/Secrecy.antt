-- ===== src/Server/Secrecy.antt =====
-- The results of a push, which the log, the notices and the page show, hold none of the secrets.
use nft_auth_whitelist.Prelude.{
  ℕ, suc, Option, none, some, List, [], ◌∷◌, ◌≡◌, ◌⊎◌, inl, inr, All, Bool-cases,
}
use nft_auth_whitelist.Prelude.Int.{pos, leb_ℤ}
use nft_auth_whitelist.Text.{Text, text}
use nft_auth_whitelist.Clock.{Time}
use nft_auth_whitelist.Signer.{Envelope}
use nft_auth_whitelist.SshPush.{PushResult, push}
use nft_auth_whitelist.Config.{PushTarget}
use nft_auth_whitelist.Server.Defs.{Server, ServerConfig, World}
use nft_auth_whitelist.Server.Push.{
  push_target, push_loop, push_payload, push_envelope, do_push, exhausted, redacted, ssh_target,
  timeout_for,
}
use nft_auth_whitelist.Server.Hiding.{IsFree, IsHidable, redact_secrets-IsFree, empty_free}

module _ (cfg : ServerConfig) (w : World) (p : Text)
    (secret : (p ≡ cfg.hmac_secret) ⊎ ((p ≡ cfg.pull_token) ⊎ (p ≡ cfg.password)))
    (h : IsHidable p) where
  -- Neither text of the result holds the secret.
  abbrev pub Hides : PushResult → Type 0
  Hides r = IsFree p r.stdout × IsFree p r.reason

  redacted-Hides : (r : PushResult) → Hides (redacted cfg r)
  unfolding redacted
  redacted-Hides r =
      (redact_secrets-IsFree cfg r.stdout p secret h, redact_secrets-IsFree cfg r.reason p secret h)

  module _ (budget : IsFree p (text "push budget exhausted"))
      (built : IsFree p (text "internal error building envelope"))
      (marshalled : IsFree p (text "internal error marshalling envelope")) where
    target-Hides :
        (payload : Text) (entries n : ℕ) (t : PushTarget) (s : Server)
        → Hides (push_target cfg w payload entries n t s).0
    unfolding push_target exhausted
    target-Hides payload entries n t s = elim (Bool-cases (leb_ℤ (w.until n) (pos 0))) [
      | inl e ↦ rw (push_target, e) (empty_free [] p h, budget)
      | inr e ↦
          rw (push_target, e)
            (redacted-Hides (push w.ssh (ssh_target t) payload (timeout_for cfg (w.until n))))
    ]

    loop-Hides :
        (payload : Text) (entries n : ℕ) (ts : List PushTarget) (s : Server)
        → All Hides (push_loop cfg w payload entries n ts s).0
    unfolding push_loop
    loop-Hides payload entries n [] s = tt
    loop-Hides payload entries n (t ∷ ts) s = (
      target-Hides payload entries n t s,
      loop-Hides payload entries (suc n) ts (push_target cfg w payload entries n t s).1,
    )

    payload-Hides :
        (env : Envelope) (b : Option Text) (s : Server) → All Hides (push_payload cfg w env b s).0
    unfolding push_payload
    payload-Hides env none s = ((empty_free [] p h, marshalled), tt)
    payload-Hides env (some b) s = loop-Hides b _ 0 cfg.push.targets s

    envelope-Hides : (o : Option Envelope) (s : Server) → All Hides (push_envelope cfg w o s).0
    unfolding push_envelope
    envelope-Hides none s = ((empty_free [] p h, built), tt)
    envelope-Hides (some env) s = payload-Hides env (w.marshal_envelope env) s

    -- If the HMAC secret, the pull token or the password is longer than 8 bytes, has no angle
    -- brackets, and stands in none of the three fixed reasons, then it stands nowhere in the output
    -- or the reason of a result of doPush, whatever ssh printed.
    pub do_push-Hides : (now : Time) (s : Server) → All Hides (do_push cfg w now s).0
    unfolding do_push
    do_push-Hides now s = envelope-Hides _ s
