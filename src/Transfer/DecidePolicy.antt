-- ===== src/Transfer/DecidePolicy.antt =====
-- The conflict policies of the two sides of a transfer: zmodem.go's zmanagement and decide.
use go_serial_cli.Common.{ℕ, ◌≡◌, refl, Bool, true, false, ◌||◌, ◌==◌, Bytes, Option, none, some}
use go_serial_cli.Zmodem.Header.{Header, f0, f1, z_cresum}
use go_serial_cli.Transfer.Disk.{
  PathSystem, FilePath, Entry, regular, folder, unreadable, FileSystem, file_exists,
}
use go_serial_cli.Transfer.Decide.{
  ConflictPolicy, unset, skip_identical_else_rename, overwrite, skip, rename, no_option,
  zmanagement, Offer, CrcAnswer, crc_ok, is_identical, if_identical, by_policy, by_management,
  decide_missing, decide_about, decide,
}

module _ (paths : PathSystem) (crc : Bytes → ℕ) (remote : ℕ → CrcAnswer) where
  module _ (h : Header) (disk : FileSystem) (o : Offer) (target : FilePath) where
    missing_agrees :
        (policy : ConflictPolicy)
        → f1 h ≡ zmanagement policy
        → decide_missing paths crc remote h target false
          ≡ decide_missing paths crc remote h target true
    unfolding decide_missing zmanagement
    missing_agrees unset e = rw e refl
    missing_agrees skip_identical_else_rename e = rw e refl
    missing_agrees overwrite e = rw e refl
    missing_agrees skip e = rw e refl
    missing_agrees rename e = rw e refl
    missing_agrees no_option e = rw e refl

    compared_alike :
        (bytes : Bytes) (b : Bool)
        → if_identical paths crc remote disk target
            (is_identical paths crc remote (b || true || true) o bytes)
          ≡ if_identical paths crc remote disk target
              (is_identical paths crc remote (b || false || true) o bytes)
    compared_alike bytes true = refl
    compared_alike bytes false = refl

    existing_agrees :
        (policy : ConflictPolicy) (bytes : Bytes) (at : ℕ)
        → f1 h ≡ zmanagement policy
        → decide_about paths crc remote h disk o target unset false (some (regular bytes at))
          ≡ decide_about paths crc remote h disk o target policy true (some (regular bytes at))
    unfolding decide_about by_management by_policy crc_ok zmanagement
    existing_agrees unset bytes at e = rw e (compared_alike bytes (f0 h == z_cresum))
    existing_agrees skip_identical_else_rename bytes at e =
        rw e (compared_alike bytes (f0 h == z_cresum))
    existing_agrees overwrite bytes at e = rw e refl
    existing_agrees skip bytes at e = rw e refl
    existing_agrees rename bytes at e = rw e refl
    existing_agrees no_option bytes at e = rw e refl

    about_agrees :
        (policy : ConflictPolicy) (found : Option Entry)
        → f1 h ≡ zmanagement policy
        → decide_about paths crc remote h disk o target unset false found
          ≡ decide_about paths crc remote h disk o target policy true found
    unfolding decide_about
    about_agrees policy none e = missing_agrees policy e
    about_agrees policy (some (regular bytes at)) e = existing_agrees policy bytes at e
    about_agrees policy (some folder) e = refl
    about_agrees policy (some unreadable) e = missing_agrees policy e

    -- A sender that asks for the option of a policy, with no policy on the receiver's side, and a receiver
    -- that has this policy itself decide alike about every file that is offered with that option.
    pub decide-zmanagement :
        (policy : ConflictPolicy)
        → f1 h ≡ zmanagement policy
        → decide paths crc remote h disk o target unset false
          ≡ decide paths crc remote h disk o target policy true
    unfolding decide
    decide-zmanagement policy e = about_agrees policy (file_exists disk target) e
