-- ===== src/State/Files.antt =====
-- internal/state/lastgood.go: Save writes a temporary file, syncs it and renames it into place.
-- Names are relative to the store directory. The test hooks between the calls are left out: the
-- process may die in each call, with the call done in part or not at all.
use ghostd.Prelude.{String, ◌==◌, Option, none, some, if◌then◌else◌, joined, or_else}
use ghostd.Env.{Env}
use ghostd.Effect.{Host, M, ◌>>◌, gets, sys, probe, unchanged}

abbrev pub tmp_name : String → String
tmp_name name = joined name ".tmp"

module _ {e : Env} where
  abbrev pub put_file : String → Option e.Blob → Host e → Host e
  put_file name content h = record h {
    files = λ other. if name == other then content else h.files other;
  }

  -- os.Rename(tmp, target)
  abbrev pub rename : String → String → Host e → Host e
  rename tmp target h = put_file tmp none (put_file target (h.files tmp) h)

  -- What os.ReadFile finds; nothing where the file does not exist.
  abbrev pub content : Host e → String → e.Blob
  content h name = or_else e.empty (h.files name)

  -- os.WriteFile(tmp, raw, 0o600)
  unfoldable pub write_tmp : String → e.Blob → M e (Unit {0})
  unfolding sys
  write_tmp name raw =
      sys (λ h. put_file (tmp_name name) (e.torn h.step raw) h)
        (put_file (tmp_name name) (some raw))

  unfoldable pub rename_tmp : String → M e (Unit {0})
  unfolding sys
  rename_tmp name = sys unchanged (rename (tmp_name name) name)

  -- Store.Save: write, open, sync, rename, and sync the directory.
  unfoldable pub save : String → e.Blob → M e (Unit {0})
  unfolding write_tmp rename_tmp
  save name raw = do write_tmp name raw; probe; probe; rename_tmp name; probe; probe

  -- Store.Load
  unfoldable pub load : String → M e e.Blob
  load name = do probe; gets (λ h. content h name)
