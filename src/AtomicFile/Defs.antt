-- ===== src/AtomicFile/Defs.antt =====
-- The disk, the outcomes of the system calls, and `write` step by step.
use nft_auth_whitelist.Prelude.{ℕ, Option, none, some, List, [], ◌∷◌, Bool, if◌then◌else◌}
use nft_auth_whitelist.Text.{Text, prefix}
use nft_auth_whitelist.Dict.{Dict, put, delete}

pub record File : Type 0 where
  pub content : Text
  pub perm : ℕ

abbrev pub Files : Type 0
Files = Dict File

-- The files, and every earlier state of them that another process may have seen, newest first.
pub record Disk : Type 0 where
  pub files : Files
  pub history : List Files

-- The call that failed.
pub data Syscall : Type 0 where
  mkdir create written synced closed chmodded renamed read : Syscall

-- What the operating system answers in one write: whether each call succeeds, how many bytes a
-- failing write got to the file, and the name that it gave the temporary file.
pub record Outcomes : Type 0 where
  pub tmp : Text
  pub mkdir_ok : Bool
  pub create_ok : Bool
  pub write_ok : Bool
  pub partial : ℕ
  pub sync_ok : Bool
  pub close_ok : Bool
  pub chmod_ok : Bool
  pub rename_ok : Bool
  pub remove_ok : Bool

abbrev pub become : Files → Disk → Disk
become fs d = record { files = fs; history = fs ∷ d.history }

-- The deferred `os.Remove(tmpName)`, whose error is dropped.
unfoldable pub remove_tmp : Outcomes → Disk → Disk
remove_tmp o d = if o.remove_ok then become (delete o.tmp d.files) d else d

-- `os.Rename(tmpName, path)`
unfoldable pub rename : Outcomes → Text → Text → ℕ → Disk → Disk
rename o path data_ perm d =
    become (put path (record { content = data_; perm = perm }) (delete o.tmp d.files)) d

-- The file mode of `os.CreateTemp`, 0600.
abbrev pub tmp_perm : ℕ
tmp_perm = 384

abbrev pub set_tmp : Outcomes → Text → ℕ → Disk → Disk
set_tmp o content perm d = become (put o.tmp (record { content = content; perm = perm }) d.files) d

unfoldable pub write : Outcomes → Text → Text → ℕ → Disk → Option Syscall × Disk
unfolding remove_tmp rename prefix
write o path data_ perm d =
    let d₁ = set_tmp o [] tmp_perm d in
    let torn = set_tmp o (prefix o.partial data_) tmp_perm d₁ in
    let d₂ = set_tmp o data_ tmp_perm d₁ in
    let d₃ = set_tmp o data_ perm d₂ in
    if o.create_ok
    then (if o.write_ok
        then (if o.sync_ok
            then (if o.close_ok
                then (if o.chmod_ok
                    then (if o.rename_ok
                        then (none, remove_tmp o (rename o path data_ perm d₃))
                        else (some renamed, remove_tmp o d₃))
                    else (some chmodded, remove_tmp o d₂))
                else (some closed, remove_tmp o d₂))
            else (some synced, remove_tmp o d₂))
        else (some written, remove_tmp o torn))
    else (some create, d)

-- Directories hold no content and are left out of the disk.
unfoldable pub write_with_dir : Outcomes → Text → Text → ℕ → Disk → Option Syscall × Disk
write_with_dir o path data_ perm d =
    if o.mkdir_ok then write o path data_ perm d else (some mkdir, d)
