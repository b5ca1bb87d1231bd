-- ===== src/Signer.antt =====
-- internal/signer/signer.go: the signed envelope. JSON marshalling and HMAC-SHA256 are Go's
-- packages, and enter as the functions of a `Crypto`.
pub mod Hex
pub mod Laws
use nft_auth_whitelist.Prelude.{Option, none, some, List, Bool, false, All, ◌≡◌}
use nft_auth_whitelist.Prelude.Int.{ℤ}
use nft_auth_whitelist.Clock.{Time}
use nft_auth_whitelist.Text.{Text, text_eq}
use Hex.{IsByte, encode, decode}

pub record Entry : Type 0 where
  pub ip : Text
  pub cidr : Text
  pub source : Text
  pub created_at : Time
  pub expires_at : Time
  pub last_seen_at : Time
  pub hit_count : ℤ

pub record CanonicalPayload : Type 0 where
  pub version : ℤ
  pub issued_at : Time
  pub expires_at : Time
  pub entries : List Entry

pub record Envelope : Type 0 where
  pub version : ℤ
  pub issued_at : Time
  pub expires_at : Time
  pub entries : List Entry
  pub signature : Text

-- What the package takes from encoding/json and crypto/hmac: `json.Marshal` of a payload, which
-- fails on a time that RFC 3339 cannot write, and the digest of a message under a key.
pub record Crypto : Type 0 where
  pub marshal : CanonicalPayload → Option Text
  pub hmac_sha256 : Text → Text → Text
  -- A digest is a sequence of bytes.
  pub hmac-bytes : (key message : Text) → All IsByte (hmac_sha256 key message)

module _ (c : Crypto) where
  open c use {marshal, hmac_sha256}

  unfoldable pub canonical : Envelope → Option Text
  canonical env = marshal (record {
    version = env.version;
    issued_at = env.issued_at;
    expires_at = env.expires_at;
    entries = env.entries;
  })

  unfoldable pub sign : Envelope → Text → Option Envelope
  unfolding canonical
  sign env secret = elim (canonical env) [
    | none ↦ none
    | some b ↦ some (record env { signature = encode (hmac_sha256 secret b) })
  ]

  -- `hmac.Equal(expected, got)` is equality of the two digests.
  compare_digest : Text → Option Text → Bool
  compare_digest expected none = false
  compare_digest expected (some got) = text_eq expected got

  unfoldable pub verify : Envelope → Text → Bool
  unfolding canonical compare_digest
  verify env secret = elim (canonical env) [
    | none ↦ false
    | some b ↦ compare_digest (hmac_sha256 secret b) (decode env.signature)
  ]
