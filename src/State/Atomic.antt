-- ===== src/State/Atomic.antt =====
-- Store.Save in internal/state/lastgood.go: the files at each of its steps.
use ghostd.Prelude.{
  ◌≤◌, String, ◌==◌, ◌≡◌, arith, refl, false, Option, some, joined-ne_self, eq_refl as str_refl,
  ◌⊎◌, inl, inr,
}
use ghostd.Env.{Env}
use ghostd.Effect.{Host, Code, probe, advance}
use ghostd.Effect.Triple.{After, Triple, Triple-bind, Triple-sys}
use ghostd.State.Files.{put_file, tmp_name, rename, write_tmp, rename_tmp, save}

module _ {e : Env} where
  -- Nothing but the temporary file of `name` differs.
  pub record Kept (name : String) (h h' : Host e) : Type 0 where
    pub units : h'.units ≡ h.units
    pub timers : h'.timers ≡ h.timers
    pub kernel : h'.kernel ≡ h.kernel
    pub later : h.step ≤ h'.step
    pub elsewhere :
        (other : String) → (tmp_name name == other) ≡ false → h'.files other ≡ h.files other

  -- The file `name` holds `raw`, and nothing else differs but its temporary file.
  pub record Written (name : String) (raw : e.Blob) (h h' : Host e) : Type 0 where
    pub units : h'.units ≡ h.units
    pub timers : h'.timers ≡ h.timers
    pub kernel : h'.kernel ≡ h.kernel
    pub later : h.step ≤ h'.step
    pub at : h'.files name ≡ some raw
    pub elsewhere :
        (other : String)
        → (tmp_name name == other) ≡ false
        → (name == other) ≡ false
        → h'.files other ≡ h.files other

  abbrev pub AllOrNothing : String → e.Blob → Host e → Host e → Type 0
  AllOrNothing name raw h h' = Kept name h h' ⊎ Written name raw h h'

  module _ (name : String) (raw : e.Blob) (h₀ : Host e) where
    abbrev Staged : Host e → Type 0
    Staged h = Kept name h₀ h × (h.files (tmp_name name) ≡ some raw)

    Kept-put_file :
        (c : Option e.Blob) (h : Host e)
        → Kept name h₀ h
        → Kept name h₀ (advance (put_file (tmp_name name) c h))
    Kept-put_file c h k = record {
      units = k.units;
      timers = k.timers;
      kernel = k.kernel;
      later = omega (arith, k.later);
      elsewhere = λ other ne. rw ne (k.elsewhere other ne);
    }

    Kept-advance : (h : Host e) → Kept name h₀ h → Kept name h₀ (advance h)
    Kept-advance h k = record {
      units = k.units;
      timers = k.timers;
      kernel = k.kernel;
      later = omega (arith, k.later);
      elsewhere = k.elsewhere;
    }

    Written-advance : (h : Host e) → Written name raw h₀ h → Written name raw h₀ (advance h)
    Written-advance h w = record {
      units = w.units;
      timers = w.timers;
      kernel = w.kernel;
      later = omega (arith, w.later);
      at = w.at;
      elsewhere = w.elsewhere;
    }

    Written-rename :
        (h : Host e) → Staged h → Written name raw h₀ (advance (rename (tmp_name name) name h))
    Written-rename h (k, staged) = record {
      units = k.units;
      timers = k.timers;
      kernel = k.kernel;
      later = omega (arith, k.later);
      at = rw (joined-ne_self name ".tmp" 3 refl, str_refl name) staged;
      elsewhere = λ other ne ne'. rw (ne, ne') (k.elsewhere other ne);
    }

    abbrev Ended : Option Code → Host e → Type 0
    Ended o h = AllOrNothing name raw h₀ h

    Triple-write_tmp : Triple (Kept name h₀) (write_tmp name raw) (λ _. Staged) Ended
    unfolding write_tmp
    Triple-write_tmp =
        Triple-sys _ _ (λ h k. (Kept-put_file (some raw) h k, rw (str_refl (tmp_name name)) refl))
          (λ o h k. inl (Kept-put_file _ h k))

    Triple-probe-Staged : Triple Staged probe (λ _. Staged) Ended
    unfolding probe
    Triple-probe-Staged =
        Triple-sys _ _ (λ h s. (Kept-advance h s.0, s.1)) (λ o h s. inl (Kept-advance h s.0))

    Triple-rename_tmp : Triple Staged (rename_tmp name) (λ _. Written name raw h₀) Ended
    unfolding rename_tmp
    Triple-rename_tmp =
        Triple-sys _ _ (λ h s. Written-rename h s) (λ o h s. inl (Kept-advance h s.0))

    Triple-probe-Written : Triple (Written name raw h₀) probe (λ _. Written name raw h₀) Ended
    unfolding probe
    Triple-probe-Written =
        Triple-sys _ _ (λ h w. Written-advance h w) (λ o h w. inr (Written-advance h w))

    Triple-save_staged : Triple (Kept name h₀) (save name raw) (λ _. Written name raw h₀) Ended
    unfolding save
    Triple-save_staged =
        Triple-bind (λ _. Staged) _ _ Triple-write_tmp
          λ _.
            Triple-bind (λ _. Staged) _ _ Triple-probe-Staged
              λ _.
                Triple-bind (λ _. Staged) _ _ Triple-probe-Staged
                  λ _.
                    Triple-bind (λ _. Written name raw h₀) _ _ Triple-rename_tmp
                      λ _.
                        Triple-bind (λ _. Written name raw h₀) _ _ Triple-probe-Written
                          λ _. Triple-probe-Written

  -- Save from any host, whatever each of its system calls does: on success the file holds the new
  -- blob; on an error, or where the process dies, it holds the new blob or is untouched; in every
  -- case no other file but the temporary one differs, nor timers, kernel and lease table.
  pub save_atomic :
      (name : String) (raw : e.Blob) (h : Host e)
      → After (λ _. Written name raw h) (λ _. AllOrNothing name raw h) (save name raw h)
  save_atomic name raw h = (Triple-save_staged name raw h).run h (record {
    units = refl;
    timers = refl;
    kernel = refl;
    later = omega arith;
    elsewhere = λ other ne. refl;
  })
