-- ===== src/Transfer/DecideSafe.antt =====
-- What `decide` of zmodem.go leaves alone.
use go_serial_cli.Common.{
  inl, inr, ℕ, ◌≡◌, refl, sym, ap, ◌∙◌, Bool, true, false, not, ◌&&◌, ◌||◌, ◌==◌, leb, if_cases,
  bit_and, Bytes, Option, none, some, length, take, arith, take_all,
}
use mathlib.Core.Path.{subst}
use go_serial_cli.Zmodem.Header.{
  Header, f1, z_m_sk_no_loc, z_m_mask, z_mnewl, z_mapnd, z_mclob, z_mnew, z_mdiff, z_mprot, z_mchng,
}
use go_serial_cli.Zmodem.Link.{LinkError}
use go_serial_cli.Transfer.Disk.{
  PathSystem, FilePath, Entry, regular, folder, unreadable, FileSystem, file_exists, renamed_path,
  is_absent, look_up, readable,
}
use go_serial_cli.Transfer.DiskFree.{renamed_path-cases}
use go_serial_cli.Transfer.Decide.{
  ConflictPolicy, unset, skip_identical_else_rename, overwrite, skip, rename, no_option,
  is_explicit, Offer, Reason, exists, identical, Decision, write_to, append_to, skip_it, ask_failed,
  endless, CrcAnswer, crc_is, no_answer, crc_failed, Comparison, same, differs, not_compared,
  is_newer, is_longer, differs_in_stat, crc_ok, write_renamed, local_prefix_crc, compare_crc,
  compare_content, compare_offer, is_identical, if_identical, by_policy, by_management,
  decide_missing, decide_about, decide,
}

-- What replaces the bytes of a file that exists: this side's policy, or else an option of the sender.
abbrev pub replaces : ConflictPolicy → ℕ → Bool
replaces overwrite option = true
replaces unset option =
    option == z_mnewl || option == z_mclob || option == z_mnew || option == z_mdiff
replaces skip option = false
replaces rename option = false
replaces no_option option = false
replaces skip_identical_else_rename option = false

-- What fileExists returns can be looked at.
readable_lem : (found : Option Entry) → readable found ≡ some unreadable → ⊥
unfolding readable
readable_lem none h = cc
readable_lem (some (regular bytes at)) h = cc
readable_lem (some folder) h = cc
readable_lem (some unreadable) h = cc

module _ (paths : PathSystem) (crc : Bytes → ℕ) (remote : ℕ → CrcAnswer) where
  -- A decision that loses no file against the wish of both sides.
  pub data IsKind (h : Header) (disk : FileSystem) (o : Offer) (target : FilePath)
      (policy : ConflictPolicy) : Decision → Type 0 where
    fresh : file_exists disk target ≡ none → IsKind h disk o target policy (write_to target)
    renamed :
        (path : FilePath)
        → is_absent disk path ≡ true
        → IsKind h disk o target policy (write_to path)
    unended : renamed_path paths disk target ≡ none → IsKind h disk o target policy endless
    replaced :
        replaces policy (bit_and (f1 h) z_m_mask) ≡ true
        → IsKind h disk o target policy (write_to target)
    appended :
        policy ≡ unset
        → bit_and (f1 h) z_m_mask ≡ z_mapnd
        → IsKind h disk o target policy (append_to target)
    kept :
        (why : Reason) → (why ≡ identical → ⊥) → IsKind h disk o target policy (skip_it target why)
    held :
        (bytes : Bytes) (at n : ℕ)
        → file_exists disk target ≡ some (regular bytes at)
        → o.size ≡ some n
        → length bytes ≡ n
        → remote n ≡ crc_is (crc bytes)
        → IsKind h disk o target policy (skip_it target identical)
    asked :
        (e : LinkError) (n : ℕ)
        → remote n ≡ crc_failed e
        → IsKind h disk o target policy (ask_failed e)

  module _ (h : Header) (disk : FileSystem) (o : Offer) (target : FilePath) where
    write_renamed-IsKind :
        (policy : ConflictPolicy)
        → IsKind h disk o target policy (write_renamed (renamed_path paths disk target))
    unfolding write_renamed
    write_renamed-IsKind policy = elim (renamed_path-cases paths target disk) [
      | inl e ↦ subst (λ r. IsKind h disk o target policy (write_renamed r)) (sym e) (unended e)
      | inr (j, e, absent) ↦
          subst (λ r. IsKind h disk o target policy (write_renamed r)) (sym e) (renamed _ absent)
    ]

    -- What a comparison stands on.
    abbrev IsFound : Bytes → Comparison → Type 0
    IsFound bytes same =
        (n : ℕ) × (o.size ≡ some n) × (length bytes ≡ n) × (remote n ≡ crc_is (crc bytes))
    IsFound bytes differs = Unit
    IsFound bytes (not_compared e) = (n : ℕ) × (remote n ≡ crc_failed e)

    compare_content-IsFound :
        (bytes : Bytes) (n : ℕ) (answer : CrcAnswer)
        → o.size ≡ some n
        → length bytes ≡ n
        → remote n ≡ answer
        → IsFound bytes (compare_content paths crc remote bytes n answer)
    unfolding compare_content local_prefix_crc compare_crc
    compare_content-IsFound bytes n (crc_is theirs) s l r =
        let whole_file : leb n (length bytes) ≡ true = ground (arith, l) in
        rw whole_file (
          if_cases (IsFound bytes) (crc (take n bytes) == theirs) _ _
            (λ t.
              let all_bytes : take n bytes ≡ bytes =
                ap (λ k. take k bytes) (sym l) ∙ take_all bytes in
              let equal : crc bytes ≡ theirs = sym (ap crc all_bytes) ∙ ground (arith, t) in
              (n, s, l, r ∙ ap crc_is (sym equal)))
            (λ f. tt))
    compare_content-IsFound bytes n no_answer s l r = tt
    compare_content-IsFound bytes n (crc_failed e) s l r = (n, r)

    compare_offer-IsFound :
        (ok : Bool) (bytes : Bytes) (size : Option ℕ)
        → o.size ≡ size
        → IsFound bytes (compare_offer paths crc remote ok bytes size)
    unfolding compare_offer
    compare_offer-IsFound ok bytes none e = tt
    compare_offer-IsFound ok bytes (some n) e =
        if_cases (IsFound bytes) (not ok || not (length bytes == n)) _ _ (λ t. tt)
          (λ f. compare_content-IsFound bytes n (remote n) e (ground (arith, f)) refl)

    is_identical-IsFound :
        (ok : Bool) (bytes : Bytes) → IsFound bytes (is_identical paths crc remote ok o bytes)
    unfolding is_identical
    is_identical-IsFound ok bytes = compare_offer-IsFound ok bytes o.size refl

    if_identical-IsKind :
        (policy : ConflictPolicy) (bytes : Bytes) (at : ℕ) (c : Comparison)
        → file_exists disk target ≡ some (regular bytes at)
        → IsFound bytes c
        → IsKind h disk o target policy (if_identical paths crc remote disk target c)
    unfolding if_identical
    if_identical-IsKind policy bytes at same e (n, s, l, r) = held bytes at n e s l r
    if_identical-IsKind policy bytes at differs e f = write_renamed-IsKind policy
    if_identical-IsKind policy bytes at (not_compared x) e (n, r) = asked x n r

    by_policy-IsKind :
        (management : ℕ) (bytes : Bytes) (at : ℕ) (policy : ConflictPolicy)
        → file_exists disk target ≡ some (regular bytes at)
        → IsKind h disk o target policy
            (by_policy paths crc remote h management disk o target bytes policy)
    unfolding by_policy
    by_policy-IsKind management bytes at overwrite e = replaced refl
    by_policy-IsKind management bytes at skip e = kept exists (λ x. absurd cc)
    by_policy-IsKind management bytes at rename e = write_renamed-IsKind rename
    by_policy-IsKind management bytes at unset e =
        if_identical-IsKind unset bytes at _ e (is_identical-IsFound (crc_ok h management) bytes)
    by_policy-IsKind management bytes at skip_identical_else_rename e =
        if_identical-IsKind skip_identical_else_rename bytes at _ e
          (is_identical-IsFound (crc_ok h management) bytes)
    by_policy-IsKind management bytes at no_option e =
        if_identical-IsKind no_option bytes at _ e
          (is_identical-IsFound (crc_ok h management) bytes)

    by_management-IsKind :
        (bytes : Bytes) (at : ℕ)
        → file_exists disk target ≡ some (regular bytes at)
        → IsKind h disk o target unset (
            by_management paths crc remote h (bit_and (f1 h) z_m_mask) disk o target bytes at unset)
    unfolding by_management
    by_management-IsKind bytes at e =
        let Kind = IsKind h disk o target unset in
        let option = bit_and (f1 h) z_m_mask in
        if_cases Kind (option == z_mnewl) _ _
          (λ t.
            if_cases Kind (is_newer o at || is_longer o (length bytes)) _ _
              (λ u. replaced (ground (arith, t))) (λ u. kept _ (λ x. absurd cc)))
          (λ t.
            if_cases Kind (option == z_mapnd) _ _ (λ u. appended refl (ground (arith, u)))
              (λ u.
                if_cases Kind (option == z_mclob) _ _ (λ v. replaced (ground (arith, v)))
                  (λ v.
                    if_cases Kind (option == z_mnew) _ _
                      (λ w.
                        if_cases Kind (is_newer o at) _ _ (λ x. replaced (ground (arith, w)))
                          (λ x. kept _ (λ x. absurd cc)))
                      (λ w.
                        if_cases Kind (option == z_mdiff) _ _
                          (λ x.
                            if_cases Kind (differs_in_stat o (length bytes) at) _ _
                              (λ y. replaced (ground (arith, x))) (λ y. kept _ (λ x. absurd cc)))
                          (λ x.
                            if_cases Kind (option == z_mprot) _ _ (λ y. kept _ (λ x. absurd cc))
                              (λ y.
                                if_cases Kind (option == z_mchng) _ _
                                  (λ z. write_renamed-IsKind unset)
                                  (λ z. by_policy-IsKind option bytes at unset e)))))))

    decide_missing-IsKind :
        (policy : ConflictPolicy)
        → file_exists disk target ≡ none
        → IsKind h disk o target policy
            (decide_missing paths crc remote h target (is_explicit policy))
    unfolding decide_missing
    decide_missing-IsKind policy e =
        if_cases (IsKind h disk o target policy)
          (not (is_explicit policy) && not (bit_and (f1 h) z_m_sk_no_loc == 0)) _ _
          (λ t. kept _ (λ x. absurd cc)) (λ f. fresh e)

    explicit-IsKind :
        (policy : ConflictPolicy) (bytes : Bytes) (at : ℕ)
        → file_exists disk target ≡ some (regular bytes at)
        → IsKind h disk o target policy (
            decide_about paths crc remote h disk o target policy
              (is_explicit policy)
              (some (regular bytes at)))
    unfolding decide_about by_management is_explicit
    explicit-IsKind unset bytes at e = by_management-IsKind bytes at e
    explicit-IsKind overwrite bytes at e = by_policy-IsKind 0 bytes at overwrite e
    explicit-IsKind skip bytes at e = by_policy-IsKind 0 bytes at skip e
    explicit-IsKind rename bytes at e = by_policy-IsKind 0 bytes at rename e
    explicit-IsKind no_option bytes at e = by_policy-IsKind 0 bytes at no_option e
    explicit-IsKind skip_identical_else_rename bytes at e =
        by_policy-IsKind 0 bytes at skip_identical_else_rename e

    decide_about-IsKind :
        (policy : ConflictPolicy) (found : Option Entry)
        → file_exists disk target ≡ found
        → IsKind h disk o target policy
            (decide_about paths crc remote h disk o target policy (is_explicit policy) found)
    unfolding decide_about file_exists
    decide_about-IsKind policy none e = decide_missing-IsKind policy e
    decide_about-IsKind policy (some (regular bytes at)) e = explicit-IsKind policy bytes at e
    decide_about-IsKind policy (some folder) e = kept _ (λ x. absurd cc)
    decide_about-IsKind policy (some unreadable) e = absurd (readable_lem (look_up disk target) e)

    -- Whatever is offered and whatever is there, decide writes to the target where os.Stat finds none that
    -- it can look at, or to another path at which nothing is, or to the
    -- file that is there only where the policy of this side is to overwrite, or it has none and the sender
    -- asks for one of the options that replace; it appends only where the sender asks for it; it skips a
    -- file as identical only if the one that is there has the size of the offer and the CRC that the
    -- sender gave for all of it; and every other file is skipped for another reason, or the link failed, or
    -- renamedPath has not ended.
    pub decide-IsKind :
        (policy : ConflictPolicy)
        → IsKind h disk o target policy
            (decide paths crc remote h disk o target policy (is_explicit policy))
    unfolding decide
    decide-IsKind policy = decide_about-IsKind policy (file_exists disk target) refl
