-- ===== src/Auth.antt =====
-- internal/auth/auth.go: the checks of the credentials. SHA-256 is Go's own; the constant time of
-- the comparison is no part of its result and is left out.
use nft_auth_whitelist.Prelude.{
  [], Option, none, some, ◌∷◌, ◌++◌, ◌≡◌, ◌↔◌, refl, ap, ◌∙◌, inl, inr, Bool, true, false, ◌&&◌,
  arith, if◌then◌else◌, length, Bool-cases,
}
use nft_auth_whitelist.Text.{Text, text, text_eq, text_eq_iff, has_prefix, drop}

-- sha256.Sum256, and that the texts which the program compares do not collide.
pub record Sha256 : Type 0 where
  pub sum : Text → Text

abbrev pub NoCollision : Sha256 → Text → Text → Type 0
NoCollision sha a b = sha.sum a ≡ sha.sum b → a ≡ b

unfoldable pub constant_time_equal : Sha256 → Text → Text → Bool
constant_time_equal sha a b = text_eq (sha.sum a) (sha.sum b)

abbrev both_match : Sha256 → Text → Text → Option (Text × Text) → Bool
both_match sha username password none = false
both_match sha username password (some (u, p)) =
    constant_time_equal sha u username && constant_time_equal sha p password

-- `r.BasicAuth()` gives the user and the password of the request, if it has them.
unfoldable pub check_basic_auth : Sha256 → Option (Text × Text) → Text → Text → Bool
check_basic_auth sha credentials username password = both_match sha username password credentials

abbrev bearer : Text
bearer = text "Bearer "

-- The header Authorization is empty where the request has none.
unfoldable pub check_bearer : Sha256 → Text → Text → Bool
unfolding constant_time_equal
check_bearer sha h token =
    if has_prefix h bearer then constant_time_equal sha (drop (length bearer) h) token else false

constant_time_equal_iff :
    (sha : Sha256) (a b : Text)
    → NoCollision sha a b
    → (constant_time_equal sha a b ≡ true) ↔ (a ≡ b)
unfolding constant_time_equal
constant_time_equal_iff sha a b n = (
  λ h. n ((text_eq_iff (sha.sum a) (sha.sum b)).0 h),
  λ e. (text_eq_iff (sha.sum a) (sha.sum b)).1 (ap sha.sum e),
)

-- If SHA-256 does not confuse the texts compared, CheckBasicAuth accepts a user and a password
-- exactly if they are the configured ones.
pub check_basic_auth_iff :
    (sha : Sha256) (user pass username password : Text)
    → NoCollision sha user username
    → NoCollision sha pass password
    → (check_basic_auth sha (some (user, pass)) username password ≡ true)
      ↔ ((user ≡ username) × (pass ≡ password))
unfolding check_basic_auth
check_basic_auth_iff sha user pass username password n m = ground (
  arith,
  constant_time_equal_iff sha user username n,
  constant_time_equal_iff sha pass password m,
)

has_prefix-drop : (h p : Text) → has_prefix h p ≡ true → h ≡ p ++ drop (length p) h
unfolding has_prefix
has_prefix-drop h [] e = refl
has_prefix-drop [] (c ∷ p) e = cc
has_prefix-drop (x ∷ h) (c ∷ p) e = ground (arith, has_prefix-drop h p)

has_prefix-append : (p s : Text) → has_prefix (p ++ s) p ≡ true
unfolding has_prefix
has_prefix-append [] s = ground arith
has_prefix-append (c ∷ p) s = ground (arith, has_prefix-append p s)

-- If SHA-256 does not confuse the texts compared, CheckBearer accepts a header exactly if it is the
-- word Bearer, a space and the token.
pub check_bearer_iff :
    (sha : Sha256) (h token : Text)
    → NoCollision sha (drop (length bearer) h) token
    → (check_bearer sha h token ≡ true) ↔ (h ≡ bearer ++ token)
unfolding check_bearer
check_bearer_iff sha h token n =
    let same = constant_time_equal_iff sha (drop (length bearer) h) token n in
    (
      λ t. elim (Bool-cases (has_prefix h bearer)) [
        | inl p ↦ has_prefix-drop h bearer p ∙ ap (λ s. bearer ++ s) (same.0 (ground (arith, p)))
        | inr p ↦ absurd (ground (arith, p))
      ],
      λ e.
          let p : has_prefix h bearer ≡ true = rw e (has_prefix-append bearer token) in
          let rest : drop (length bearer) h ≡ token = rw e in rw (check_bearer, p) (same.1 rest),
    )
