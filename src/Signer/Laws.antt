-- ===== src/Signer/Laws.antt =====
-- What a signature means: it is the digest of everything else in the envelope.
use nft_auth_whitelist.Prelude.{some, ◌≡◌, ◌↔◌, sym, ap, ◌∙◌, true, inl, inr, arith, Option-cases}
use nft_auth_whitelist.Text.{Text, text_eq_refl, text_eq_iff}
use nft_auth_whitelist.Signer.Hex.{encode, decode, decode-encode}
use nft_auth_whitelist.Signer.{Envelope, Crypto, canonical, sign, verify}

module _ (c : Crypto) where
  -- The signature is the hex form of the digest of the canonical payload under the secret.
  abbrev pub IsGenuine : Envelope → Text → Type 0
  IsGenuine env secret =
      (b : Text) × (canonical c env ≡ some b)
      × (decode env.signature ≡ some (c.hmac_sha256 secret b))

  IsGenuine-of_verify :
      (env : Envelope) (secret : Text) → verify c env secret ≡ true → IsGenuine env secret
  unfolding verify
  IsGenuine-of_verify env secret h = elim (Option-cases (canonical c env)) [
    | inl e ↦ absurd (ground (arith, e))
    | inr (b, e) ↦ elim (Option-cases (decode env.signature)) [
      | inl f ↦ absurd (ground (arith, e, f))
      | inr (got, f) ↦ (b, e, f ∙ ap some (sym ((text_eq_iff _ got).0 (ground (arith, e, f)))))
    ]
  ]

  verify_of_genuine :
      (env : Envelope) (secret : Text) → IsGenuine env secret → verify c env secret ≡ true
  unfolding verify
  verify_of_genuine env secret (b, e, f) =
      ground (arith, e, f, text_eq_refl (c.hmac_sha256 secret b))

  -- Verify accepts an envelope exactly if its canonical payload can be marshalled and its signature
  -- decodes to the digest of that payload under the secret.
  pub verify_iff :
      (env : Envelope) (secret : Text) → (verify c env secret ≡ true) ↔ IsGenuine env secret
  verify_iff env secret = (IsGenuine-of_verify env secret, verify_of_genuine env secret)

  -- What `Sign` signs is accepted by `Verify` under the same secret.
  pub verify-sign :
      (env : Envelope) (secret : Text) {env' : Envelope}
      → sign c env secret ≡ some env'
      → verify c env' secret ≡ true
  unfolding sign canonical
  verify-sign env secret {env'} h = elim (Option-cases (canonical c env)) [
    | inl e ↦ absurd (ground (arith, e))
    | inr (b, e) ↦
        let s : env' ≡ record env { signature = encode (c.hmac_sha256 secret b) } =
          ground (arith, e) in
        rw s (verify_of_genuine _ secret (b, e, decode-encode _ (c.hmac-bytes secret b)))
  ]

  -- `Sign` changes the signature alone.
  pub sign-eq :
      (env : Envelope) (secret : Text) {env' : Envelope}
      → sign c env secret ≡ some env'
      → env' ≡ record env { signature = env'.signature }
  unfolding sign
  sign-eq env secret {env'} h = elim (Option-cases (canonical c env)) [
    | inl e ↦ absurd (ground (arith, e))
    | inr (b, e) ↦ ground (arith, e)
  ]
