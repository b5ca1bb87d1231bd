-- ===== src/AtomicFile/Success.antt =====
-- A write in which every call succeeds.
use nft_auth_whitelist.Prelude.{ℕ, none, ◌≡◌, true}
use nft_auth_whitelist.Text.{Text}
use nft_auth_whitelist.AtomicFile.Defs.{Disk, Outcomes, write, write_with_dir}

pub record Succeeds (o : Outcomes) : Type 0 where
  pub mkdir : o.mkdir_ok ≡ true
  pub create : o.create_ok ≡ true
  pub written : o.write_ok ≡ true
  pub synced : o.sync_ok ≡ true
  pub closed : o.close_ok ≡ true
  pub chmodded : o.chmod_ok ≡ true
  pub renamed : o.rename_ok ≡ true

pub write_with_dir-Succeeds :
    (o : Outcomes) (path content : Text) (perm : ℕ) (d : Disk)
    → Succeeds o
    → (write_with_dir o path content perm d).0 ≡ none
unfolding write_with_dir write
write_with_dir-Succeeds o path content perm d s =
    simp (
      write_with_dir, write, s.mkdir, s.create, s.written, s.synced, s.closed, s.chmodded,
      s.renamed,
    )
