-- ===== src/Config/Parts.antt =====
-- The parts of a configuration that is accepted: its secrets, its guard and its ports.
use nft_auth_whitelist.Prelude.{
  ℕ, ◌≤◌, Option, none, some, List, [], ◌∷◌, ◌++◌, ◌≡◌, refl, Bool, true, false, not, ◌||◌, arith,
  ltb, length, All,
}
use nft_auth_whitelist.Prelude.Int.{ℤ, pos, pos_part, ltb_ℤ}
use nft_auth_whitelist.Text.{Text, text, text_eq, text_eq_iff, trim, lower, has_prefix}
use nft_auth_whitelist.Config.Checks.{
  ConfigError, NftConfig, and_then, refuse_if, reject_placeholder, validate_credential,
  validate_nft, check_ports,
}

pub and_then-none : (a b : Option ConfigError) → and_then a b ≡ none → (a ≡ none) × (b ≡ none)
and_then-none none b h = (refl, h)
and_then-none (some e) b h = cc

pub refuse_if-none : (t : Bool) (e : ConfigError) → refuse_if t e ≡ none → t ≡ false
refuse_if-none true e h = cc
refuse_if-none false e h = refl

-- A secret that is no placeholder and long enough.
pub record IsSecret (value : Text) (min : ℕ) : Type 0 where
  pub own : has_prefix (lower (trim value)) (text "change-me") ≡ false
  pub long : min ≤ length (trim value)

pub credential-IsSecret :
    (value : Text) (min : ℕ) → validate_credential value min ≡ none → IsSecret value min
unfolding validate_credential reject_placeholder
credential-IsSecret value min h =
    let (a, b) = and_then-none _ _ h in
    let a' = refuse_if-none _ _ a in
    let b' : ltb (length (trim value)) min ≡ false = refuse_if-none _ _ b in
    record { own = a'; long = ground arith }

abbrev pub IsPort : ℤ → Type 0
IsPort p = (1 ≤ pos_part p) × (pos_part p ≤ 65535)

check_ports-IsPort : (ps : List ℤ) → check_ports ps ≡ none → All IsPort ps
unfolding check_ports
check_ports-IsPort [] h = tt
check_ports-IsPort (p ∷ ps) h =
    let (a, b) = and_then-none _ _ h in
    let a' : (ltb_ℤ p (pos 1) || ltb_ℤ (pos 65535) p) ≡ false = refuse_if-none _ _ a in
    (ground arith, check_ports-IsPort ps b)

-- The guard has the program's own table, and ports that are ports.
pub record IsGuard (n : NftConfig) : Type 0 where
  pub table : n.table ≡ text "nft_auth_whitelist"
  pub ports : All IsPort (n.protected_tcp_ports ++ n.protected_udp_ports)

pub nft-IsGuard : (n : NftConfig) → validate_nft n ≡ none → IsGuard n
unfolding validate_nft
nft-IsGuard n h =
    let (a, b) = and_then-none _ _ h in
    let a' : not (text_eq n.table (text "nft_auth_whitelist")) ≡ false = refuse_if-none _ _ a in
    record {
      table = (text_eq_iff n.table (text "nft_auth_whitelist")).0 (ground arith);
      ports = check_ports-IsPort _ b;
    }
