-- ===== src/Config/Inversion.antt =====
-- What a configuration that is loaded went through: the completion, then the check.
use nft_auth_whitelist.Prelude.{
  ℕ, ◌<◌, Option, none, some, ◌≡◌, ◌⊎◌, inl, refl, subst, Bool, true, false, not, ◌&&◌, arith,
}
use nft_auth_whitelist.Prelude.Int.{ℤ, pos_part}
use nft_auth_whitelist.Config.Checks.{ConfigError}
use nft_auth_whitelist.Config.Loading.{Loaded, loaded, failed, checked, and_check, positive_or}

abbrev pub IsPositive : ℤ → Type 0
IsPositive n = 0 < pos_part n

pub positive_or-IsPositive :
    (n : ℤ) (default : ℕ) → 0 < default → IsPositive (positive_or n default)
positive_or-IsPositive n default h = ground arith

pub family_cases : (a b : Bool) → (not a && not b) ≡ false → (a ≡ true) ⊎ (b ≡ true)
family_cases true b h = inl refl
family_cases false b h = ground arith

module _ {C : Type 0} (complete : C → C) (check : C → Option ConfigError) where
  checked-loaded :
      (c d : C) (o : Option ConfigError) → checked c o ≡ loaded d → (c ≡ d) × (o ≡ none)
  checked-loaded c d none h = (cc, refl)
  checked-loaded c d (some e) h = absurd (cc)

  -- What a program is given was completed, and was accepted by the check.
  pub and_check-loaded :
      (r : Loaded C) (d : C)
      → and_check r complete check ≡ loaded d
      → (c : C) × (complete c ≡ d) × (check d ≡ none)
  and_check-loaded (failed e) d h = absurd (cc)
  and_check-loaded (loaded c) d h =
      let (e, n) = checked-loaded (complete c) d (check (complete c)) h in
      (c, e, subst (λ x. check x ≡ none) e n)
