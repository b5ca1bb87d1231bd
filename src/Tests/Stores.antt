-- ===== src/Tests/Stores.antt =====
-- A store of two records at its limit.
use mathlib.Core.List.Permᴰ
use nft_auth_whitelist.Prelude.{some, none, [], ◌∷◌, ◌≡◌, refl, false, arith, reverse}
use nft_auth_whitelist.Prelude.Int.{pos}
use nft_auth_whitelist.Text.{text, text_eq, text_lt, join}
use nft_auth_whitelist.Prelude.Sort.{sort}
use nft_auth_whitelist.Signer.Hex.{encode}
use nft_auth_whitelist.Clock.{Time}
use nft_auth_whitelist.Dict.{find, MapOrder}
use nft_auth_whitelist.Signer.{Entry, Envelope, sign}
use nft_auth_whitelist.AtomicFile.{Disk, File, write_with_dir, find-write}
use nft_auth_whitelist.AtomicFile
use nft_auth_whitelist.Store
use nft_auth_whitelist.Store.{
  Store, record_entry, refresh_or_add, enforce_limit_locked, snapshot, build_envelope, purge,
}
use nft_auth_whitelist.Store.Enforce.{IsEnforced, enforce_limit_locked-IsEnforced}
use nft_auth_whitelist.Store.Snapshot.{
  IsFresh, build_envelope-IsFresh, build_envelope_deterministic,
}
use nft_auth_whitelist.Store.Recording.{record_entry_found}
use nft_auth_whitelist.Store.Purging.{IsPurged, purge-IsPurged}
use nft_auth_whitelist.Tests.Sample.{
  total, sample_crypto, sample_order, sample_io, sample_store_json, empty_disk, entry, two_entries,
  two_entries-IsValid,
}

abbrev now : Time
now = 10000000000

abbrev late : Time
late = 2000000000000

abbrev after_record : Store.Logged
after_record =
    record_entry sample_store_json sample_order (sample_io (text "tmp")) (text "c") (text "c")
      (text "web_auth") now (pos 60000000000) two_entries empty_disk

abbrev recorded : Entry
recorded = record {
  ip = text "c";
  cidr = text "c";
  source = text "web_auth";
  created_at = 10000000000;
  expires_at = 70000000000;
  last_seen_at = 10000000000;
  hit_count = pos 1;
}

record_entry_found_example : find (text "c") after_record.store.entries ≡ some recorded
unfolding find text_eq refresh_or_add
record_entry_found_example =
    record_entry_found sample_store_json sample_order (sample_io (text "tmp")) (text "c") (text "c")
      (text "web_auth") now (pos 60000000000) two_entries empty_disk two_entries-IsValid
      (omega arith) (omega arith) (omega arith, (omega arith, tt))

enforce_limit_locked-IsEnforced_example :
    IsEnforced late 2 two_entries.entries
      (enforce_limit_locked sample_order late two_entries).0.entries
enforce_limit_locked-IsEnforced_example =
    enforce_limit_locked-IsEnforced sample_order late two_entries two_entries-IsValid.distinct

abbrev envelope : Envelope
envelope = record {
  version = pos 1;
  issued_at = 10000000000;
  expires_at = 310000000000;
  entries = entry (text "a") ∷ entry (text "b") ∷ [];
  signature = text "38";
}

built :
    build_envelope sample_crypto sample_order now (pos 300000000000) (text "key") two_entries
    ≡ some envelope
unfolding build_envelope sign sort encode text_lt total join
built = refl

build_envelope-IsFresh_example :
    IsFresh sample_crypto now (pos 300000000000) (text "key") two_entries envelope
build_envelope-IsFresh_example =
    build_envelope-IsFresh sample_crypto now (pos 300000000000) (text "key") two_entries
      two_entries-IsValid sample_order built

-- The order from the end.
abbrev reversed : MapOrder Entry
reversed = record { order = λ n m. reverse m; order-perm = λ n m. Permᴰ.reverse m }

build_envelope_deterministic_example :
    build_envelope sample_crypto sample_order now (pos 300000000000) (text "key") two_entries
    ≡ build_envelope sample_crypto reversed now (pos 300000000000) (text "key") two_entries
build_envelope_deterministic_example =
    build_envelope_deterministic sample_crypto now (pos 300000000000) (text "key") two_entries
      two_entries-IsValid sample_order reversed

purge-IsPurged_example :
    IsPurged late two_entries empty_disk
      (purge sample_store_json sample_order (sample_io (text "tmp")) late two_entries empty_disk)
purge-IsPurged_example =
    purge-IsPurged sample_store_json sample_order (sample_io (text "tmp")) late two_entries
      empty_disk two_entries-IsValid

apart : text_eq (text "tmp") (text "allow.txt") ≡ false
unfolding text_eq
apart = refl

write_with_dir-IsAtomic_example :
    AtomicFile.IsAtomic
      (text "allow.txt")
      (AtomicFile.new_file (text "x") 0o600)
      none
      (write_with_dir (sample_io (text "tmp")) (text "allow.txt") (text "x") 0o600 empty_disk)
unfolding find
write_with_dir-IsAtomic_example =
    AtomicFile.write_with_dir-IsAtomic (sample_io (text "tmp")) (text "allow.txt") (text "x") 0o600
      apart empty_disk tt
