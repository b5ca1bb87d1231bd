-- ===== src/Server/Hiding.antt =====
-- Redaction leaves no occurrence of a secret.
use nft_auth_whitelist.Prelude.{
  ℕ, zero, suc, ◌-◌, ◌<◌, ◌≡◌, ◌≢◌, ◌⊎◌, inl, inr, refl, sym, subst, List, [], ◌∷◌, ◌++◌, true,
  false, arith, length, All, Bool-cases,
}
use nft_auth_whitelist.Text.{Text, text, has_prefix}
use nft_auth_whitelist.Server.Defs.{ServerConfig}
use nft_auth_whitelist.Server.Redact.{replace_from, redact_all, redact_secrets, secret_values}

-- The text stands nowhere in the other.
abbrev pub IsFree : Text → Text → Type 0
IsFree p [] = has_prefix [] p ≡ false
IsFree p (c ∷ s) = (has_prefix (c ∷ s) p ≡ false) × IsFree p s

abbrev IsPlain : ℕ → Type 0
IsPlain c = (c ≢ b'<') × (c ≢ b'>')

-- A secret of nine bytes or more without angle brackets.
pub record IsHidable (p : Text) : Type 0 where
  pub long : 8 < length p
  pub plain : All IsPlain p

has_prefix_mark :
    (w rest p : Text)
    → length w < length p
    → All IsPlain p
    → has_prefix (w ++ b'>' ∷ rest) p ≡ false
unfolding has_prefix
has_prefix_mark w rest [] l h = absurd (omega arith)
has_prefix_mark [] rest (x ∷ p) l h = ground (arith, h.0)
has_prefix_mark (c ∷ w) rest (x ∷ p) l h = ground (arith, has_prefix_mark w rest p)

IsFree-mark :
    (w rest p : Text)
    → length w < length p
    → All IsPlain p
    → IsFree p rest
    → IsFree p (w ++ b'>' ∷ rest)
IsFree-mark [] rest p l h f = (has_prefix_mark [] rest p l h, f)
IsFree-mark (c ∷ w) rest p l h f =
    (has_prefix_mark (c ∷ w) rest p l h, IsFree-mark w rest p (omega arith) h f)

abbrev mark : Text
mark = text "<redacted>"

starts_plain : (s p : Text) → IsHidable p → has_prefix (b'<' ∷ s) p ≡ false
unfolding has_prefix
starts_plain s [] h = absurd (omega (arith, h.long))
starts_plain s (x ∷ p) h = ground (arith, h.plain.0.0)

IsFree-replaced : (p rest : Text) → IsHidable p → IsFree p rest → IsFree p (mark ++ rest)
IsFree-replaced p rest h f =
    (starts_plain _ p h, IsFree-mark (text "redacted") rest p h.long h.plain f)

module _ (old : Text) where
  abbrev replaced : ℕ → Text → Text
  replaced = replace_from old mark

  -- A plain text at the front of what is replaced was at the front before.
  has_prefix-replaced :
      (s p : Text) → All IsPlain p → has_prefix (replaced zero s) p ≡ true → has_prefix s p ≡ true
  unfolding has_prefix replace_from
  has_prefix-replaced s [] h e = ground arith
  has_prefix-replaced [] (x ∷ p) h e = e
  has_prefix-replaced (c ∷ s) (x ∷ p) h e = elim (Bool-cases (has_prefix (c ∷ s) old)) [
    | inl m ↦ absurd (ground (arith, m, h.0.0))
    | inr m ↦ ground (arith, m, has_prefix-replaced s p h.1)
  ]

  not_front :
      (s p : Text) → All IsPlain p → has_prefix s p ≡ false → has_prefix (replaced zero s) p ≡ false
  not_front s p h e = elim (Bool-cases (has_prefix (replaced zero s) p)) [
    | inl t ↦ cc (has_prefix-replaced s p h t)
    | inr f ↦ f
  ]

  front_gone :
      (c : ℕ) (s p : Text)
      → (p ≡ old) ⊎ IsFree p (c ∷ s)
      → has_prefix (c ∷ s) old ≡ false
      → has_prefix (c ∷ s) p ≡ false
  front_gone c s p (inl e) m = subst (λ q. has_prefix (c ∷ s) q ≡ false) (sym e) m
  front_gone c s p (inr f) m = f.0

  tail-IsFree : (c : ℕ) (s p : Text) → (p ≡ old) ⊎ IsFree p (c ∷ s) → (p ≡ old) ⊎ IsFree p s
  tail-IsFree c s p (inl e) = inl e
  tail-IsFree c s p (inr f) = inr f.1

  pub empty_free : (p : Text) → IsHidable p → has_prefix [] p ≡ false
  unfolding has_prefix
  empty_free [] h = absurd (omega (arith, h.long))
  empty_free (x ∷ p) h = refl

  -- What is replaced is gone, and what was not there does not arise.
  IsFree-replace :
      (skip : ℕ) (s p : Text) → IsHidable p → (p ≡ old) ⊎ IsFree p s → IsFree p (replaced skip s)
  unfolding replace_from
  IsFree-replace skip [] p h f = empty_free p h
  IsFree-replace (suc skip) (c ∷ s) p h f = IsFree-replace skip s p h (tail-IsFree c s p f)
  IsFree-replace zero (c ∷ s) p h f = elim (Bool-cases (has_prefix (c ∷ s) old)) [
    | inl m ↦
        rw (replace_from, m)
          (IsFree-replaced p _ h (IsFree-replace (length old - 1) s p h (tail-IsFree c s p f)))
    | inr m ↦
        let front : has_prefix (replaced zero (c ∷ s)) p ≡ false =
          not_front (c ∷ s) p h.plain (front_gone c s p f m) in
        let rest = IsFree-replace zero s p h (tail-IsFree c s p f) in
        rw (replace_from, m) (rw (replace_from, m) at front, rest)
  ]

-- The secret is one of the list.
abbrev OneOf : Text → List Text → Type 0
OneOf p [] = ⊥
OneOf p (q ∷ qs) = (p ≡ q) ⊎ OneOf p qs

not_empty : (p : Text) → IsHidable p → p ≢ []
not_empty [] h e = absurd (omega (arith, h.long))
not_empty (x ∷ p) h e = cc

IsFree-redact_all :
    (qs : List Text) (s p : Text)
    → IsHidable p
    → OneOf p qs ⊎ IsFree p s
    → IsFree p (redact_all qs s)
unfolding redact_all
IsFree-redact_all [] s p h (inl e) = absurd e
IsFree-redact_all [] s p h (inr f) = f
IsFree-redact_all ([] ∷ qs) s p h (inl (inl e)) = absurd (not_empty p h e)
IsFree-redact_all ([] ∷ qs) s p h (inl (inr o)) = IsFree-redact_all qs s p h (inl o)
IsFree-redact_all ([] ∷ qs) s p h (inr f) = IsFree-redact_all qs s p h (inr f)
IsFree-redact_all ((c ∷ q) ∷ qs) s p h (inl (inl e)) =
    IsFree-redact_all qs _ p h (inr (IsFree-replace (c ∷ q) zero s p h (inl e)))
IsFree-redact_all ((c ∷ q) ∷ qs) s p h (inl (inr o)) = IsFree-redact_all qs _ p h (inl o)
IsFree-redact_all ((c ∷ q) ∷ qs) s p h (inr f) =
    IsFree-redact_all qs _ p h (inr (IsFree-replace (c ∷ q) zero s p h (inr f)))

-- Doc.
pub redact_secrets-IsFree :
    (cfg : ServerConfig) (s p : Text)
    → (p ≡ cfg.hmac_secret) ⊎ ((p ≡ cfg.pull_token) ⊎ (p ≡ cfg.password))
    → IsHidable p
    → IsFree p (redact_secrets cfg s)
unfolding redact_secrets
redact_secrets-IsFree cfg [] p o h = empty_free [] p h
redact_secrets-IsFree cfg (c ∷ s) p (inl e) h =
    IsFree-redact_all (secret_values cfg) (c ∷ s) p h (inl (inl e))
redact_secrets-IsFree cfg (c ∷ s) p (inr (inl e)) h =
    IsFree-redact_all (secret_values cfg) (c ∷ s) p h (inl (inr (inl e)))
redact_secrets-IsFree cfg (c ∷ s) p (inr (inr e)) h =
    IsFree-redact_all (secret_values cfg) (c ∷ s) p h (inl (inr (inr (inl e))))
