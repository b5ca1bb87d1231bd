-- ===== src/Tests/Json.antt =====
-- A writer and a reader of entries that undo each other, in place of encoding/json.
use nft_auth_whitelist.Prelude.{
  ℕ, zero, suc, ◌≡◌, refl, ap, subst, true, false, Option, none, some, List, [], ◌∷◌, ◌++◌, length,
  arith,
}
use nft_auth_whitelist.Prelude.Int.{ℤ, pos, negsuc}
use nft_auth_whitelist.Text.{Text, text, text_eq, prefix, drop}
use nft_auth_whitelist.Dict.{find}
use nft_auth_whitelist.Signer.{Entry}
use nft_auth_whitelist.AtomicFile.{Disk, write}
use nft_auth_whitelist.Store.{Store, StoreError, StoreJson, load, persist_locked}
use nft_auth_whitelist.Store.Restart.{load-persist}
use nft_auth_whitelist.Tests.Sample.{
  sample_order, sample_io, empty_disk, two_entries, two_entries-IsValid,
}

-- A text with its length in front.
write_text : Text → Text → Text
write_text t r = length t ∷ t ++ r

read_text : Text → Option (Text × Text)
read_text [] = none
read_text (n ∷ s) = some (prefix n s, drop n s)

prefix-append : (t r : Text) → prefix (length t) (t ++ r) ≡ t
unfolding prefix
prefix-append [] r = ground arith
prefix-append (c ∷ t) r = ap (◌∷◌ c) (prefix-append t r)

drop-append : (t r : Text) → drop (length t) (t ++ r) ≡ r
drop-append [] r = refl
drop-append (c ∷ t) r = drop-append t r

read_text-write_text : (t r : Text) → read_text (write_text t r) ≡ some (t, r)
unfolding read_text write_text
read_text-write_text t r = rw (prefix-append, drop-append)

write_int : ℤ → Text → Text
write_int (pos n) r = 0 ∷ n ∷ r
write_int (negsuc n) r = 1 ∷ n ∷ r

read_int : Text → Option (ℤ × Text)
read_int (zero ∷ n ∷ r) = some (pos n, r)
read_int (suc k ∷ n ∷ r) = some (negsuc n, r)
read_int _ = none

read_int-write_int : (z : ℤ) (r : Text) → read_int (write_int z r) ≡ some (z, r)
unfolding read_int write_int
read_int-write_int (pos n) r = refl
read_int-write_int (negsuc n) r = refl

write_entry : Entry → Text → Text
write_entry e r = write_text e.ip (
    write_text e.cidr (
      write_text e.source (e.created_at ∷ e.expires_at ∷ e.last_seen_at ∷ write_int e.hit_count r)))

read_count : Text → Text → Text → ℕ → ℕ → ℕ → Option (ℤ × Text) → Option (Entry × Text)
read_count ip cidr source c x l none = none
read_count ip cidr source c x l (some (h, r)) = some (
  record {
    ip = ip;
    cidr = cidr;
    source = source;
    created_at = c;
    expires_at = x;
    last_seen_at = l;
    hit_count = h;
  },
  r,
)

read_times : Text → Text → Option (Text × Text) → Option (Entry × Text)
unfolding read_count
read_times ip cidr (some (source, c ∷ x ∷ l ∷ r)) = read_count ip cidr source c x l (read_int r)
read_times ip cidr _ = none

read_source : Text → Option (Text × Text) → Option (Entry × Text)
unfolding read_times
read_source ip (some (cidr, r)) = read_times ip cidr (read_text r)
read_source ip none = none

read_cidr : Option (Text × Text) → Option (Entry × Text)
unfolding read_source
read_cidr (some (ip, r)) = read_source ip (read_text r)
read_cidr none = none

read_entry-write_entry :
    (e : Entry) (r : Text) → read_cidr (read_text (write_entry e r)) ≡ some (e, r)
unfolding read_cidr read_source read_times read_count write_entry
read_entry-write_entry e r = rw (
  read_text-write_text, read_cidr, read_text-write_text, read_source, read_text-write_text,
  read_times, read_int-write_int,
)

write_entries : List Entry → Text
unfolding write_entry
write_entries [] = []
write_entries (e ∷ es) = write_entry e (write_entries es)

cons_some : Entry → Option (List Entry) → Option (List Entry)
cons_some e none = none
cons_some e (some es) = some (e ∷ es)

read_rest : (Text → Option (List Entry)) → Option (Entry × Text) → Option (List Entry)
unfolding cons_some
read_rest more none = none
read_rest more (some (e, r)) = cons_some e (more r)

read_entries : ℕ → Text → Option (List Entry)
read_entries zero s = some []
read_entries (suc n) s = read_rest (λ r. read_entries n r) (read_cidr (read_text s))

read_entries-write_entries :
    (es : List Entry) → read_entries (length es) (write_entries es) ≡ some es
unfolding read_entries write_entries read_rest cons_some
read_entries-write_entries [] = refl
read_entries-write_entries (e ∷ es) =
    rw (read_entries, read_entry-write_entry, read_rest, read_entries-write_entries es)

read_file : Text → Option (List Entry)
unfolding read_entries
read_file [] = none
read_file (n ∷ s) = read_entries n s

abbrev json : StoreJson
json = record {
  marshal_entries = λ es. some (length es ∷ write_entries es);
  unmarshal_entries = read_file;
}

reads :
    (es : List Entry) (b : Text)
    → json.marshal_entries es ≡ some b
    → json.unmarshal_entries b ≡ some es
unfolding read_file
reads es b h =
    let b' : length es ∷ write_entries es ≡ b = ground arith in
    subst (λ t. read_file t ≡ some es) b' (read_entries-write_entries es)

named : text_eq two_entries.path [] ≡ false
unfolding text_eq
named = refl

apart : text_eq (text "tmp") two_entries.path ≡ false
unfolding text_eq
apart = refl

abbrev persisted : Option StoreError × Disk
persisted = persist_locked json sample_order 0 (sample_io (text "tmp")) two_entries empty_disk

was_written : persisted.0 ≡ none
unfolding persist_locked text_eq write
was_written = refl

abbrev reloaded : Option StoreError × Store
reloaded = load json true persisted.1 (record two_entries { entries = [] })

load-persist_example :
    (reloaded.0 ≡ none) × ((k : Text) → find k reloaded.1.entries ≡ find k two_entries.entries)
load-persist_example =
    load-persist json sample_order 0 (sample_io (text "tmp")) two_entries empty_disk
      two_entries-IsValid named apart (λ b e. reads _ b e) was_written
