-- ===== src/Transfer/ReceiveResume.antt =====
-- From where `receiveFile` of zmodem.go resumes a partial file.
use go_serial_cli.Common.{
  ℕ, ◌≤◌, ◌≡◌, refl, ◌∙◌, Bool, true, false, ◌&&◌, ◌==◌, ltb, if_cases, Bytes, Option, none, some,
  length, take, arith, take_all,
}
use go_serial_cli.Zmodem.Header.{Header, f0, z_cresum}
use go_serial_cli.Transfer.Disk.{FilePath, FileSystem}
use go_serial_cli.Transfer.Decide.{CrcAnswer, crc_is, no_answer, crc_failed}
use go_serial_cli.Transfer.ReceiveFile.{
  part_of, contents_at, Resume, starts, resume_failed, compare_part, resume_with, resume_start,
}

module _ (file : Bytes) (disk : FileSystem) (crc : Bytes → ℕ) (remote : ℕ → CrcAnswer)
    (answers : (n x : ℕ) → remote n ≡ crc_is x → x ≡ crc (take n file))
    (no_collision : (path : FilePath)
      → crc (contents_at disk path) ≡ crc (take (length (contents_at disk path)) file)
      → contents_at disk path ≡ take (length (contents_at disk path)) file) where
  abbrev pub IsResumable : FilePath → Resume → Type 0
  IsResumable target (starts n) =
      (n ≤ length file) × (take n (contents_at disk (part_of target)) ≡ take n file)
  IsResumable target (resume_failed e) = Unit

  compare_part-IsResumable :
      (target : FilePath) (answer : CrcAnswer)
      → length (contents_at disk (part_of target)) ≤ length file
      → remote (length (contents_at disk (part_of target))) ≡ answer
      → IsResumable target (
          compare_part
            (crc (contents_at disk (part_of target)))
            (length (contents_at disk (part_of target)))
            answer)
  unfolding compare_part
  compare_part-IsResumable target (crc_is x) h e =
      let part = contents_at disk (part_of target) in
      if_cases (λ n. IsResumable target (starts n)) (crc part == x) _ _
        (λ t.
          let equal : crc part ≡ x = ground (arith, t) in
          (h, take_all part ∙ no_collision (part_of target) (equal ∙ answers (length part) x e)))
        (λ f. (omega arith, refl))
  compare_part-IsResumable target no_answer h e = (omega arith, refl)
  compare_part-IsResumable target (crc_failed x) h e = tt

  pub resume_start-IsResumable :
      (h : Header) (append : Bool) (target : FilePath) (size : Option ℕ)
      → ((n : ℕ) → size ≡ some n → n ≤ length file)
      → IsResumable target
          (resume_start crc remote h append size (contents_at disk (part_of target)))
  unfolding resume_start resume_with
  resume_start-IsResumable h true target size k = (omega arith, refl)
  resume_start-IsResumable h false target none k = (omega arith, refl)
  resume_start-IsResumable h false target (some n) k =
      let part = contents_at disk (part_of target) in
      if_cases (IsResumable target) (f0 h == z_cresum && ltb 0 (length part) && ltb (length part) n)
        _ _
        (λ t.
          let fits : n ≤ length file = k n refl in
          let less : length part ≤ length file = ground (arith, t, fits) in
          compare_part-IsResumable target (remote (length part)) less refl)
        (λ f. (omega arith, refl))
