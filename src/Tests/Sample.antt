-- ===== src/Tests/Sample.antt =====
-- Small stand-ins for the libraries: functions that have what the parameters ask for.
use nft_auth_whitelist.Prelude.{
  ℕ, zero, suc, ◌+◌, ◌-◌, ◌*◌, ◌/◌, ◌%◌, ◌<◌, ◌≡◌, ◌≢◌, refl, Option, none, some, [], ◌∷◌, ◌++◌,
  map, true, false, ◌&&◌, ltb, leb, ◌==◌, subst, arith, if◌then◌else◌, All, Bool-cases,
  Option-cases, inl, inr,
}
use mathlib.Core.List.Permᴰ
use nft_auth_whitelist.Prelude.Int.{pos}
use nft_auth_whitelist.Text.{Text, text, text_eq, IsGraph, join}
use nft_auth_whitelist.Dict.{MapOrder}
use nft_auth_whitelist.AtomicFile.{Disk, Outcomes}
use nft_auth_whitelist.Store.{Store, StoreJson}
use nft_auth_whitelist.Store.Snapshot.{IsValid}
use nft_auth_whitelist.Signer.{Entry, Crypto}
use nft_auth_whitelist.Signer.Hex.{IsByte}
use nft_auth_whitelist.Net.Ip.{
  Ip, Addr, v6, v4_prefix, v4_end, ip_end, addr_of, IsAddr, AddressSyntax, to4,
}

-- An address as 32 letters from a to p, the least significant first.
unfoldable pub letters : ℕ → ℕ → Text
letters zero n = []
letters (suc k) n = (97 + n % 16) ∷ letters k (n / 16)

unfoldable pub add_letter : ℕ → Option ℕ → Option ℕ
add_letter c none = none
add_letter c (some m) = if leb 97 c && leb c 112 then some (c - 97 + 16 * m) else none

unfoldable pub number : Text → Option ℕ
unfolding add_letter
number [] = some 0
number (c ∷ s) = add_letter c (number s)

width : ℕ → ℕ
width zero = 1
width (suc k) = 16 * width k

number-letters : (k n : ℕ) → n < width k → number (letters k n) ≡ some n
unfolding number letters add_letter width
number-letters zero n h = ground arith
number-letters (suc k) n h = let m = number-letters k (n / 16) (omega arith) in ground (arith, m)

unfoldable pub in_range : Option ℕ → Option Addr
in_range none = none
in_range (some n) = if ltb n ip_end then some (addr_of n) else none

-- Two literals are read as Go reads them.
unfoldable pub mapped_literal : Text
mapped_literal = text "::ffff:0:0"

unfoldable pub parse_letters : Text → Option Addr
unfolding in_range number mapped_literal
parse_letters s = if text_eq s mapped_literal then some (v6 v4_prefix) else in_range (number s)

width_32 : width 32 ≡ ip_end
unfolding width
width_32 = refl

letters-head : (n : ℕ) → text_eq (letters 32 n) mapped_literal ≡ false
unfolding letters text_eq mapped_literal
letters-head n = ground arith

pub parse-letters : (ip : Ip) → ip < ip_end → parse_letters (letters 32 ip) ≡ some (addr_of ip)
unfolding parse_letters in_range
parse-letters ip h =
    let n = number-letters 32 ip (rw width_32 h) in
    rw (parse_letters, letters-head ip, n) (ground arith)

addr_of-IsAddr : (n : ℕ) → n < ip_end → IsAddr (addr_of n)
unfolding addr_of to4
addr_of-IsAddr n h = elim (Bool-cases (n / v4_end == 0xffff)) [
  | inl e ↦ rw (addr_of, to4, e) (omega arith)
  | inr e ↦ rw (addr_of, to4, e) h
]

pub parse-IsAddr : (s : Text) (a : Addr) → parse_letters s ≡ some a → IsAddr a
unfolding parse_letters in_range
parse-IsAddr s a h = elim (Bool-cases (text_eq s mapped_literal)) [
  | inl e ↦ let a' : v6 v4_prefix ≡ a = ground (arith, e) in subst IsAddr a' (omega arith)
  | inr e ↦ elim (Option-cases (number s)) [
    | inl f ↦ absurd (ground (arith, e, f))
    | inr (n, f) ↦ elim (Bool-cases (ltb n ip_end)) [
      | inl l ↦
          let a' : addr_of n ≡ a = ground (arith, e, f) in
          subst IsAddr a' (addr_of-IsAddr n (ground arith))
      | inr l ↦ absurd (ground (arith, e, f))
    ]
  ]
]

pub letters-IsGraph : (k n : ℕ) → All IsGraph (letters k n)
unfolding letters
letters-IsGraph zero n = tt
letters-IsGraph (suc k) n = ((omega arith, omega arith), letters-IsGraph k (n / 16))

pub letters-no_slash : (k n : ℕ) → All (λ c. c ≢ b'/') (letters k n)
unfolding letters
letters-no_slash zero n = tt
letters-no_slash (suc k) n = (λ e. absurd (omega arith), letters-no_slash k (n / 16))

abbrev pub sample_syntax : AddressSyntax
sample_syntax = record {
  parse_addr = parse_letters;
  format = letters 32;
  parse-format = parse-letters;
  parse-IsAddr = parse-IsAddr;
  format-graph = letters-IsGraph 32;
  format-no_slash = letters-no_slash 32;
}

-- A payload is its CIDRs; a digest is a sum.
unfoldable pub total : Text → ℕ
total [] = 0
total (c ∷ s) = c + total s

pub digest-bytes : (key message : Text) → All IsByte (total (key ++ message) % 256 ∷ [])
digest-bytes key message = (omega arith, tt)

abbrev pub sample_crypto : Crypto
sample_crypto = record {
  marshal = λ p. some (join (text ",") (map (λ e. e.cidr) p.entries));
  hmac_sha256 = λ key message. total (key ++ message) % 256 ∷ [];
  hmac-bytes = digest-bytes;
}

-- The order of the list.
abbrev pub sample_order {ℓ} : {V : Type ℓ} → MapOrder V
sample_order = record { order = λ n m. m; order-perm = λ n m. Permᴰ.refl m }

-- A write that succeeds, through the temporary file of the name.
abbrev pub sample_io : Text → Outcomes
sample_io tmp = record {
  tmp = tmp;
  mkdir_ok = true;
  create_ok = true;
  write_ok = true;
  partial = 0;
  sync_ok = true;
  close_ok = true;
  chmod_ok = true;
  rename_ok = true;
  remove_ok = true;
}

abbrev pub empty_disk : Disk
empty_disk = record { files = []; history = [] }

-- An entry for the CIDR that was seen in the first second and expires after 1000.
abbrev pub entry : Text → Entry
entry c = record {
  ip = c;
  cidr = c;
  source = text "web_auth";
  created_at = 1000000000;
  expires_at = 1000000000000;
  last_seen_at = 1000000000;
  hit_count = pos 1;
}

abbrev pub sample_store_json : StoreJson
sample_store_json = record {
  marshal_entries = λ es. some (join (text ",") (map (λ e. e.cidr) es));
  unmarshal_entries = λ b. none;
}

abbrev pub two_entries : Store
two_entries = record {
  path = text "entries.json";
  max_entries = 2;
  entries = (text "b", entry (text "b")) ∷ (text "a", entry (text "a")) ∷ [];
}

pub two_entries-IsValid : IsValid two_entries
unfolding text_eq
two_entries-IsValid = record { distinct = ((refl, tt), (tt, tt)); keyed = (refl, (refl, tt)) }
