-- ===== src/AtomicFile/Laws.antt =====
-- All or nothing: the file at the path is the old one or the new one, at the end and at each moment.
use nft_auth_whitelist.Prelude.{
  ℕ, Option, none, some, [], false, ◌≡◌, ◌⊎◌, inl, inr, refl, ◌∙◌, arith, Bool-cases, All,
}
use nft_auth_whitelist.Text.{Text, text_eq, text_eq_refl, prefix}
use nft_auth_whitelist.Dict.{find, put, delete, find-put, find-delete}
use nft_auth_whitelist.AtomicFile.Defs.{
  File, Files, Disk, Syscall, Outcomes, create, written, synced, closed, chmodded, renamed,
  remove_tmp, rename, set_tmp, tmp_perm, write, write_with_dir,
}

abbrev pub new_file : Text → ℕ → File
new_file content perm = record { content = content; perm = perm }

-- What a path holds after a write: the new file, or what it held before if there is an error.
abbrev pub outcome : Option Syscall → File → Option File → Option File
outcome none new old = some new
outcome (some e) new old = old

-- The new file, or what was there before.
abbrev pub OldOrNew : Text → File → Option File → Files → Type 0
OldOrNew path new old fs = (find path fs ≡ old) ⊎ (find path fs ≡ some new)

module _ (o : Outcomes) (path data_ : Text) (perm : ℕ) (d : Disk) where
  -- One case for each way that `write` ends.
  write_cases :
      (P : Option Syscall × Disk → Type 0)
      → P (some create, d)
      → ((e : Syscall) (content : Text)
          → P (some e, remove_tmp o (set_tmp o content tmp_perm (set_tmp o [] tmp_perm d))))
      → (let full = set_tmp o data_ perm (set_tmp o data_ tmp_perm (set_tmp o [] tmp_perm d)) in
          P (some renamed, remove_tmp o full)
          × P (none, remove_tmp o (rename o path data_ perm full)))
      → P (write o path data_ perm d)
  unfolding write
  write_cases P c e f = ground (
    arith,
    e written (prefix o.partial data_),
    e synced data_,
    e closed data_,
    e chmodded data_,
    f.0,
    f.1,
  )

-- A write of `new` to `path` that started from a disk with `old` there: the end, and each moment.
pub record IsAtomic (path : Text) (new : File) (old : Option File) (r : Option Syscall × Disk)
    : Type 0 where
  pub at_end : find path r.1.files ≡ outcome r.0 new old
  pub meanwhile : All (OldOrNew path new old) r.1.history

module _ (o : Outcomes) (path data_ : Text) (perm : ℕ) (apart : text_eq o.tmp path ≡ false) where
  abbrev new : File
  new = new_file data_ perm

  -- The path holds `now`, and held the old file or the new one before.
  record IsSettled (old now : Option File) (d : Disk) : Type 0 where
    at_path : find path d.files ≡ now
    before : All (OldOrNew path new old) d.history

  settle_tmp :
      {old : Option File} (content : Text) (p : ℕ) (d : Disk)
      → IsSettled old old d
      → IsSettled old old (set_tmp o content p d)
  settle_tmp content p d h =
      let e : find path (set_tmp o content p d).files ≡ find path d.files =
        ground
          (arith, find-put path o.tmp (record { content = content; perm = p }) d.files, apart) in
      record { at_path = e ∙ h.at_path; before = (inl (e ∙ h.at_path), h.before) }

  settle_remove :
      {old now : Option File} (d : Disk)
      → (now ≡ old) ⊎ (now ≡ some new)
      → IsSettled old now d
      → IsSettled old now (remove_tmp o d)
  unfolding remove_tmp
  settle_remove {old} {now} d c h =
      let e : find path (delete o.tmp d.files) ≡ find path d.files =
        ground (arith, find-delete path o.tmp d.files, apart) in
      ground (arith, e, h.at_path, h.before)

  settle_rename :
      {old : Option File} (d : Disk)
      → IsSettled old old d
      → IsSettled old (some new) (rename o path data_ perm d)
  unfolding rename
  settle_rename d h =
      let e : find path (put path new (delete o.tmp d.files)) ≡ some new =
        ground (arith, find-put path path new (delete o.tmp d.files), text_eq_refl path) in
      record { at_path = e; before = (inr e, h.before) }

  pub write-IsAtomic :
      (d : Disk)
      → All (OldOrNew path new (find path d.files)) d.history
      → IsAtomic path new (find path d.files) (write o path data_ perm d)
  write-IsAtomic d h =
      write_cases o path data_ perm d (IsAtomic path new (find path d.files))
        (record { at_end = refl; meanwhile = h })
        (λ e content.
          let s = settle_remove _ (inl refl) (settle_tmp content tmp_perm _ start) in
          record { at_end = s.at_path; meanwhile = s.before })
        (let full = settle_tmp data_ perm _ (settle_tmp data_ tmp_perm _ start) in
          let s = settle_remove _ (inl refl) full in
          let t = settle_remove _ (inr refl) (settle_rename _ full) in
          (
            record { at_end = s.at_path; meanwhile = s.before },
            record { at_end = t.at_path; meanwhile = t.before },
          ))
    where
      start : IsSettled (find path d.files) (find path d.files) (set_tmp o [] tmp_perm d)
      start = settle_tmp [] tmp_perm d (record { at_path = refl; before = h })

  find-tmp :
      (content : Text) (p : ℕ) (d : Disk)
      → find path (set_tmp o content p d).files ≡ find path d.files
  find-tmp content p d =
      ground (arith, find-put path o.tmp (record { content = content; perm = p }) d.files, apart)

  find-remove_tmp : (d : Disk) → find path (remove_tmp o d).files ≡ find path d.files
  unfolding remove_tmp
  find-remove_tmp d = ground (arith, find-delete path o.tmp d.files, apart)

  find-rename : (d : Disk) → find path (rename o path data_ perm d).files ≡ some new
  unfolding rename
  find-rename d = find-put path path new (delete o.tmp d.files) ∙ rw text_eq_refl

  -- The path holds the new file after a success, and what it held before after an error.
  pub find-write :
      (d : Disk)
      → find path (write o path data_ perm d).1.files
        ≡ outcome (write o path data_ perm d).0 new (find path d.files)
  find-write d =
      write_cases o path data_ perm d
        (λ r. find path r.1.files ≡ outcome r.0 new (find path d.files)) refl
        (λ e content.
          find-remove_tmp _ ∙ find-tmp content tmp_perm (set_tmp o [] tmp_perm d) ∙ start)
        (find-remove_tmp _ ∙ full, find-remove_tmp _ ∙ find-rename _)
    where
      start : find path (set_tmp o [] tmp_perm d).files ≡ find path d.files
      start = find-tmp [] tmp_perm d

      full :
          find path
            (set_tmp o data_ perm (set_tmp o data_ tmp_perm (set_tmp o [] tmp_perm d))).files
          ≡ find path d.files
      full =
          find-tmp data_ perm (set_tmp o data_ tmp_perm (set_tmp o [] tmp_perm d))
          ∙ find-tmp data_ tmp_perm (set_tmp o [] tmp_perm d)
          ∙ start

  pub find-write_with_dir :
      (d : Disk)
      → find path (write_with_dir o path data_ perm d).1.files
        ≡ outcome (write_with_dir o path data_ perm d).0 new (find path d.files)
  unfolding write_with_dir
  find-write_with_dir d = ground (arith, find-write d)

  -- A write to a path other than that of its temporary file ends with the new file there if there
  -- is no error and with what was there before if there is one; and if every earlier moment showed
  -- the old file or the new one, then so does every moment since.
  pub write_with_dir-IsAtomic :
      (d : Disk)
      → All (OldOrNew path new (find path d.files)) d.history
      → IsAtomic path new (find path d.files) (write_with_dir o path data_ perm d)
  unfolding write_with_dir
  write_with_dir-IsAtomic d h = elim (Bool-cases o.mkdir_ok) [
    | inl e ↦ ground (arith, e, write-IsAtomic d h)
    | inr e ↦ ground (arith, e, h)
  ]

module _ (o : Outcomes) (path data_ : Text) (perm : ℕ) (j : Text)
    (not_tmp : text_eq o.tmp j ≡ false) (not_path : text_eq path j ≡ false) where
  other_tmp : (f : File) (d : Disk) → find j (put o.tmp f d.files) ≡ find j d.files
  other_tmp f d = ground (arith, find-put j o.tmp f d.files, not_tmp)

  other_remove : (d : Disk) → find j (remove_tmp o d).files ≡ find j d.files
  unfolding remove_tmp
  other_remove d = ground (arith, find-delete j o.tmp d.files, not_tmp)

  other_rename : (d : Disk) → find j (rename o path data_ perm d).files ≡ find j d.files
  unfolding rename
  other_rename d = ground (
    arith,
    find-put j path (new_file data_ perm) (delete o.tmp d.files),
    find-delete j o.tmp d.files,
    not_tmp,
    not_path,
  )

  other_settle :
      (content : Text) (p : ℕ) (d d' : Disk)
      → find j d'.files ≡ find j d.files
      → find j (set_tmp o content p d').files ≡ find j d.files
  other_settle content p d d' e = other_tmp (record { content = content; perm = p }) d' ∙ e

  -- A write leaves every path alone but its own and that of the temporary file.
  pub find-write_ne : (d : Disk) → find j (write o path data_ perm d).1.files ≡ find j d.files
  find-write_ne d =
      write_cases o path data_ perm d (λ r. find j r.1.files ≡ find j d.files) refl
        (λ e content.
          other_remove _ ∙ other_settle content tmp_perm d (set_tmp o [] tmp_perm d) start)
        (other_remove _ ∙ full, other_remove _ ∙ other_rename _ ∙ full)
    where
      start : find j (set_tmp o [] tmp_perm d).files ≡ find j d.files
      start = other_settle [] tmp_perm d d refl

      full :
          find j (set_tmp o data_ perm (set_tmp o data_ tmp_perm (set_tmp o [] tmp_perm d))).files
          ≡ find j d.files
      full =
          other_settle data_ perm d (set_tmp o data_ tmp_perm (set_tmp o [] tmp_perm d))
            (other_settle data_ tmp_perm d (set_tmp o [] tmp_perm d) start)

  pub find-write_with_dir_ne :
      (d : Disk) → find j (write_with_dir o path data_ perm d).1.files ≡ find j d.files
  unfolding write_with_dir
  find-write_with_dir_ne d = ground (arith, find-write_ne d)
