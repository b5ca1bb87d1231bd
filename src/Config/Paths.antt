-- ===== src/Config/Paths.antt =====
-- A configuration that is accepted keeps its files apart and its secrets long.
use nft_auth_whitelist.Prelude.{none, ◌≡◌, ◌≢◌, ◌⊎◌, true, false, not, ◌&&◌, ◌||◌, arith}
use nft_auth_whitelist.Text.{Text, text_eq_iff}
use nft_auth_whitelist.Config.Checks.{validate_credential, validate_nft}
use nft_auth_whitelist.Config.Parts.{
  IsSecret, IsGuard, and_then-none, refuse_if-none, credential-IsSecret, nft-IsGuard,
}
use nft_auth_whitelist.Config.Files.{ReceiveConfig, is_empty, same_path, validate_receive}

module _ (clean : Text → Text) where
  same_path-ne :
      (a b : Text)
      → same_path clean a b ≡ false
      → is_empty a ≡ false
      → is_empty b ≡ false
      → clean a ≢ clean b
  unfolding same_path
  same_path-ne a b h i j e =
      let t = (text_eq_iff (clean a) (clean b)).1 e in absurd (ground (arith, t))

  pub record IsSafe (c : ReceiveConfig) : Type 0 where
    pub secret : IsSecret c.hmac_secret 32
    pub guard : IsGuard c.nft
    pub inbox_allow : clean c.inbox_allow_json ≢ clean c.output_allow_txt
    pub state_allow : clean c.output_state_json ≢ clean c.output_allow_txt
    pub inbox_state : clean c.inbox_allow_json ≢ clean c.output_state_json
    pub family : (c.allow_ipv4 ≡ true) ⊎ (c.allow_ipv6 ≡ true)

  -- The checks, each with its answer.
  record IsChecked (c : ReceiveConfig) : Type 0 where
    pub given :
        (is_empty c.hmac_secret
          || (is_empty c.inbox_allow_json
              || (is_empty c.output_allow_txt || is_empty c.output_state_json)))
        ≡ false
    pub credential : validate_credential c.hmac_secret 32 ≡ none
    pub family : (not c.allow_ipv4 && not c.allow_ipv6) ≡ false
    pub nft : validate_nft c.nft ≡ none
    pub paths :
        (same_path clean c.inbox_allow_json c.output_allow_txt
          || (same_path clean c.output_state_json c.output_allow_txt
              || same_path clean c.inbox_allow_json c.output_state_json))
        ≡ false

  receive-IsChecked : (c : ReceiveConfig) → validate_receive clean c ≡ none → IsChecked c
  unfolding validate_receive
  receive-IsChecked c h =
      let (m, h₁) = and_then-none _ _ h in
      let (s, h₂) = and_then-none _ _ h₁ in
      let (_, h₃) = and_then-none _ _ h₂ in
      let (f, h₄) = and_then-none _ _ h₃ in
      let (n, p) = and_then-none _ _ h₄ in
      record {
        given = refuse_if-none _ _ m;
        credential = s;
        family = refuse_if-none _ _ f;
        nft = n;
        paths = refuse_if-none _ _ p;
      }

  -- A receiver's configuration that is accepted has a secret of 32 bytes or more that is no
  -- placeholder, three files whose cleaned paths differ, an allowed family, the program's own table
  -- and protected ports from 1 to 65535.
  pub validate_receive-IsSafe : (c : ReceiveConfig) → validate_receive clean c ≡ none → IsSafe c
  validate_receive-IsSafe c h =
      let k = receive-IsChecked c h in
      let given = k.given in
      let paths = k.paths in
      let family = k.family in
      record {
        secret = credential-IsSecret c.hmac_secret 32 k.credential;
        guard = nft-IsGuard c.nft k.nft;
        inbox_allow =
            same_path-ne c.inbox_allow_json c.output_allow_txt (ground arith) (ground arith)
              (ground arith);
        state_allow =
            same_path-ne c.output_state_json c.output_allow_txt (ground arith) (ground arith)
              (ground arith);
        inbox_state =
            same_path-ne c.inbox_allow_json c.output_state_json (ground arith) (ground arith)
              (ground arith);
        family = ground arith;
      }
