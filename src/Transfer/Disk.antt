-- ===== src/Transfer/Disk.antt =====
-- What the receiver in zmodem.go asks of the file system: fileExists, renamedPath and the files that
-- os.MkdirAll, os.Rename, os.Remove and the writes of a receiver change. A disk is a list of paths with
-- what is there; what a path may look like is a parameter.
use go_serial_cli.Common.{
  ℕ, zero, suc, ◌+◌, ◌-◌, Bool, true, false, not, ◌&&◌, ◌||◌, ◌==◌, if◌then◌else◌, Bytes, List, [],
  ◌∷◌, ◌++◌, Option, none, some, length, take,
}
use go_serial_cli.Text.Display.{decimal}
use go_serial_cli.Transfer.Names.{same_runes, dot, underscore}

abbrev pub FilePath : Type 0
FilePath = Bytes

-- A file with its time of change, a folder, or what os.Stat gives an error for.
pub data Entry : Type 0 where
  regular : Bytes → ℕ → Entry
  folder unreadable : Entry

abbrev pub FileSystem : Type 0
FileSystem = List (FilePath × Entry)

unfoldable pub look_up : FileSystem → FilePath → Option Entry
look_up [] path = none
look_up ((p, e) ∷ rest) path =
    let found = look_up rest path in if same_runes p path then some e else found

unfoldable pub remove_entry : FilePath → FileSystem → FileSystem
remove_entry path [] = []
remove_entry path ((p, e) ∷ rest) =
    let kept = remove_entry path rest in if same_runes p path then kept else (p, e) ∷ kept

unfoldable pub put_entry : FilePath → Entry → FileSystem → FileSystem
put_entry path e disk = (path, e) ∷ remove_entry path disk

-- Nothing is there.
unfoldable pub is_absent : FileSystem → FilePath → Bool
is_absent disk path = elim (look_up disk path) [ none ↦ true | some e ↦ false ]

unfoldable pub readable : Option Entry → Option Entry
readable none = none
readable (some (regular bytes at)) = some (regular bytes at)
readable (some folder) = some folder
readable (some unreadable) = none

-- fileExists: the entry that is there and can be looked at.
unfoldable pub file_exists : FileSystem → FilePath → Option Entry
file_exists disk path = readable (look_up disk path)

-- Which bytes separate the elements of a path, for which paths os.Lstat gives another error than that
-- nothing is there (a name that is too long, a folder that may not be searched), and how many names
-- renamedPath is watched at.
pub record PathSystem : Type 0 where
  pub is_separator : ℕ → Bool
  pub lstat_fails : FilePath → Bool
  pub tries : ℕ

-- MkdirAll makes a folder where nothing is.
unfoldable pub make_folders : List FilePath → FileSystem → FileSystem
make_folders [] disk = disk
make_folders (p ∷ ps) disk =
    let made = make_folders ps disk in if is_absent made p then put_entry p folder made else made

module _ (paths : PathSystem) where
  unfoldable pub has_separator : FilePath → Bool
  has_separator [] = false
  has_separator (x ∷ xs) = paths.is_separator x || has_separator xs

  -- filepath.Ext: from the last dot of the last element on.
  unfoldable pub ext : FilePath → FilePath
  ext [] = []
  ext (x ∷ xs) = elim (ext xs) [
    | [] ↦ if x == dot && not (has_separator xs) then x ∷ xs else []
    | y ∷ ys ↦ y ∷ ys
  ]

  unfoldable pub candidate : FilePath → ℕ → FilePath
  candidate path i =
      take (length path - length (ext path)) path
      ++ (underscore ∷ (decimal (i + 1) i [] ++ ext path))

  -- `errors.Is(err, os.ErrNotExist)` for Lstat's error.
  unfoldable pub is_available : FileSystem → FilePath → Bool
  is_available disk path = not (paths.lstat_fails path) && is_absent disk path

  -- The loop of renamedPath, which nothing bounds; none where it goes on behind the last try.
  unfoldable pub first_free : ℕ → FileSystem → FilePath → ℕ → Option FilePath
  first_free zero disk path i = none
  first_free (suc fuel) disk path i =
      let next = first_free fuel disk path (i + 1) in
      if is_available disk (candidate path i) then some (candidate path i) else next

  unfoldable pub renamed_path : FileSystem → FilePath → Option FilePath
  renamed_path disk path = first_free paths.tries disk path 1
