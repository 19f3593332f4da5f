-- ===== src/Control/Files/Success.antt =====
-- Replacing a file where no call fails.
use las.Prelude.{String, ◌≡◌, refl}
use las.Os.{Os, NeverFails, Outcome, done, after-done}
use las.Control.Files.{file_mode, fill_and_rename, write_file}

abbrev pub Succeeds : {S : Type 0} → S × Outcome (Unit {0}) → Type 0
Succeeds m = m.1 ≡ done tt

module _ (os : Os) (ok_os : NeverFails os) where
  fill_and_rename-Succeeds :
      (name path mode content : String) (s : os.State)
      → Succeeds (fill_and_rename os name path mode content s)
  unfolding fill_and_rename
  fill_and_rename-Succeeds name path mode content s =
      after-done Succeeds _ _ _ tt (ok_os.write-done name content _) (
        after-done Succeeds _ _ _ tt (ok_os.chmod-done name mode _) (
          after-done Succeeds _ _ _ tt (ok_os.close-done name _)
            (after-done Succeeds _ _ _ tt (ok_os.rename-done name path _) refl)))

  pub write_file-Succeeds :
      (path mode content : String) (s : os.State)
      → (bits : String) × (file_mode mode ≡ done bits)
      → Succeeds (write_file os path mode content s)
  unfolding write_file
  write_file-Succeeds path mode content s (bits, readable) =
      let (name, made) = ok_os.create_temp-done path (os.mkdir_all path s).0 in
      after-done Succeeds _ _ _ bits readable (
        after-done Succeeds _ _ _ tt (ok_os.mkdir_all-done path _)
          (after-done Succeeds _ _ _ name made (fill_and_rename-Succeeds name path bits content _)))
