-- ===== src/Server/Pushing.antt =====
-- A push leaves what was recorded alone, and gives one result for each target.
use nft_auth_whitelist.Prelude.{
  ℕ, suc, none, some, Option, List, [], ◌∷◌, ◌≡◌, ◌⊎◌, inl, inr, refl, ◌∙◌, arith, length, map,
  Bool-cases,
}
use nft_auth_whitelist.Prelude.Int.{pos, leb_ℤ}
use nft_auth_whitelist.Text.{Text}
use nft_auth_whitelist.Clock.{Time}
use nft_auth_whitelist.Signer.{Envelope}
use nft_auth_whitelist.SshPush.{Target, PushResult, push}
use nft_auth_whitelist.Config.{PushTarget}
use nft_auth_whitelist.Server.Defs.{Server, ServerConfig, World}
use nft_auth_whitelist.Server.Push.{
  push_target, push_done, push_loop, push_payload, push_envelope, do_push, exhausted, timeout_for,
  redacted, audited, ssh_target,
}

-- What a push never changes.
pub record IsKept (s s' : Server) : Type 0 where
  pub store : s'.store ≡ s.store
  pub limiter : s'.limiter ≡ s.limiter
  pub disk : s'.disk ≡ s.disk

IsKept-trans : {a b c : Server} → IsKept a b → IsKept b c → IsKept a c
IsKept-trans h k = record {
  store = k.store ∙ h.store;
  limiter = k.limiter ∙ h.limiter;
  disk = k.disk ∙ h.disk;
}

module _ (cfg : ServerConfig) (w : World) where
  push_done-IsKept :
      (entries : ℕ) (t : Target) (r : PushResult) (s : Server) → IsKept s (push_done entries t r s)
  unfolding push_done
  push_done-IsKept entries t r s = elim (Bool-cases r.ok) [
    | inl e ↦ rw (push_done, e) (record { store = refl; limiter = refl; disk = refl })
    | inr e ↦ rw (push_done, e) (record { store = refl; limiter = refl; disk = refl })
  ]

  push_target-IsKept :
      (payload : Text) (entries n : ℕ) (t : PushTarget) (s : Server)
      → IsKept s (push_target cfg w payload entries n t s).1
  unfolding push_target
  push_target-IsKept payload entries n t s = elim (Bool-cases (leb_ℤ (w.until n) (pos 0))) [
    | inl e ↦ rw (push_target, e) (record { store = refl; limiter = refl; disk = refl })
    | inr e ↦
        rw (push_target, e)
          (let k =
              push_done-IsKept entries (ssh_target t)
                (redacted cfg (push w.ssh (ssh_target t) payload (timeout_for cfg (w.until n))))
                (audited s _) in
            record { store = k.store; limiter = k.limiter; disk = k.disk })
  ]

  push_target-name :
      (payload : Text) (entries n : ℕ) (t : PushTarget) (s : Server)
      → (push_target cfg w payload entries n t s).0.name ≡ t.name
  unfolding push_target exhausted redacted push ssh_target
  push_target-name payload entries n t s = ground arith

  -- A result for each target, in the order of the configuration.
  abbrev pub AnswersAll : List PushResult → Type 0
  AnswersAll rs = map (λ r. r.name) rs ≡ map (λ t. t.name) cfg.push.targets

  push_loop-names :
      (payload : Text) (entries n : ℕ) (ts : List PushTarget) (s : Server)
      → map (λ r. r.name) (push_loop cfg w payload entries n ts s).0 ≡ map (λ t. t.name) ts
  unfolding push_loop
  push_loop-names payload entries n [] s = refl
  push_loop-names payload entries n (t ∷ ts) s = cc (
    push_target-name payload entries n t s,
    push_loop-names payload entries (suc n) ts (push_target cfg w payload entries n t s).1,
  )

  push_loop-IsKept :
      (payload : Text) (entries n : ℕ) (ts : List PushTarget) (s : Server)
      → IsKept s (push_loop cfg w payload entries n ts s).1
  unfolding push_loop
  push_loop-IsKept payload entries n [] s = record { store = refl; limiter = refl; disk = refl }
  push_loop-IsKept payload entries n (t ∷ ts) s =
      IsKept-trans (push_target-IsKept payload entries n t s)
        (push_loop-IsKept payload entries (suc n) ts (push_target cfg w payload entries n t s).1)

  -- The results are those of all targets, or one that tells of the envelope.
  abbrev pub IsPush : Server → List PushResult × Server → Type 0
  IsPush s r = IsKept s r.1 × (AnswersAll r.0 ⊎ (length r.0 ≡ 1))

  payload_cases :
      (env : Envelope) (b : Option Text) (s : Server) → IsPush s (push_payload cfg w env b s)
  unfolding push_payload
  payload_cases env none s = (record { store = refl; limiter = refl; disk = refl }, inr refl)
  payload_cases env (some b) s = (
    push_loop-IsKept b (length env.entries) 0 cfg.push.targets s,
    inl (push_loop-names b (length env.entries) 0 cfg.push.targets s),
  )

  envelope_cases : (o : Option Envelope) (s : Server) → IsPush s (push_envelope cfg w o s)
  unfolding push_envelope
  envelope_cases none s = (record { store = refl; limiter = refl; disk = refl }, inr refl)
  envelope_cases (some env) s = payload_cases env (w.marshal_envelope env) s

  -- doPush leaves the store, the limiter and the disk alone, and returns a result for each target,
  -- in the order of the configuration, or a single one.
  pub do_push-IsPush : (now : Time) (s : Server) → IsPush s (do_push cfg w now s)
  unfolding do_push
  do_push-IsPush now s = envelope_cases _ s
