-- ===== src/Rpc/Executors.antt =====
-- internal/nft/nft.go and internal/netconfig as the server calls them: each call is one external
-- step that may fail, and one that changes the kernel may be left half done.
use ghostd.Prelude.{if◌then◌else◌}
use ghostd.Env.{Env}
use ghostd.Nft.Owned.{nft_owned, restore_commands}
use ghostd.Effect.{Host, M, ◌>>=◌, ◌>>◌, pure, gets, or_fail, plain, sys, probe}

module _ {e : Env} where
  abbrev pub set_kernel : (e.Kernel → e.Kernel) → Host e → Host e
  set_kernel f h = record h { kernel = f h.kernel }

  unfoldable pub enact : (e.Kernel → e.Kernel) → M e (Unit {0})
  unfolding sys
  enact f = sys (λ h. set_kernel (e.half_done h.step) h) (set_kernel f)

  -- nft.ReadRulesetJSON
  unfoldable pub read_ruleset : M e e.Blob
  read_ruleset = do probe; gets (λ h. e.nft_list h.kernel)

  -- nft.ValidateSyntax: nft -c
  unfoldable pub validate_syntax : e.Script → M e (Unit {0})
  validate_syntax script = probe

  -- nft.Commit
  unfoldable pub commit : e.Script → M e (Unit {0})
  unfolding enact
  commit script = enact (e.nft_commit script)

  -- netconfig.Snapshot
  unfoldable pub net_snapshot : e.Netconfig → M e e.Blob
  net_snapshot desired = do probe; gets (λ h. e.net_snapshot desired h.kernel)

  -- nft.Restore: nothing at all for an empty blob; of any other our own table, which is added and
  -- deleted and then loaded anew, without the handles of the old one.
  unfoldable pub nft_restore : e.Blob → M e (Unit {0})
  unfolding nft_owned restore_commands
  nft_restore snapshot = if e.is_empty snapshot then pure tt else do
    owned ← or_fail plain (nft_owned e snapshot)
    entries ← or_fail plain (e.nft_entries owned)
    enact (e.nft_load (restore_commands entries))

  unfoldable pub net_apply : e.Netconfig → M e (Unit {0})
  unfolding enact
  net_apply desired = enact (e.net_apply desired)

  unfoldable pub net_rollback : e.Blob → M e (Unit {0})
  unfolding enact
  net_rollback snapshot = enact (e.net_rollback snapshot)

  -- netconfig.Restore: nothing to replay on a fresh install.
  unfoldable pub net_restore : e.Blob → M e (Unit {0})
  net_restore confirmed =
      if e.is_empty confirmed
      then pure tt
      else do desired ← or_fail plain (e.net_parse confirmed); enact (e.net_apply desired)
