-- ===== src/FileLogger.antt =====
-- bf-service/filelogger.cpp: the log of the service in a file, with its rotation. The files are Qt's
-- and the system's: what remove, rename and an append do is a parameter.
pub mod Rotation
use bf.Base.{
  ℕ, zero, suc, ◌≡◌, ◌≢◌, ◌+◌, Bool, true, false, List, [], ◌∷◌, ◌++◌, Option, none, some, length,
  ltb, if◌then◌else◌, ◌==◌,
}

-- The file of the log, and its name with a point and a number behind it.
pub data FileName : Type 0 where
  log_file : FileName
  numbered : ℕ → FileName

pub record FileSystem : Type 1 where
  pub Files : Type 0
  pub content : Files → FileName → Option (List ℕ)
  pub remove : FileName → Files → Files
  pub rename : FileName → FileName → Files → Files
  -- `none` where the file cannot be opened
  pub append : FileName → List ℕ → Files → Option Files

abbrev pub bytes_of : Option (List ℕ) → List ℕ
bytes_of none = []
bytes_of (some bytes) = bytes

-- What they do by their documentation: rename does nothing where the new name is taken, which no call
-- here meets, or where there is no old one; an append makes a file that is missing.
pub record IsFileSystem (fs : FileSystem) : Type 0 where
  pub content-remove_self : (f : fs.Files) (x : FileName) → fs.content (fs.remove x f) x ≡ none
  pub content-remove_other :
      (f : fs.Files) (x y : FileName) → x ≢ y → fs.content (fs.remove x f) y ≡ fs.content f y
  pub content-append :
      (f f' : fs.Files) (x : FileName) (bytes : List ℕ)
      → fs.append x bytes f ≡ some f'
      → fs.content f' x ≡ some (bytes_of (fs.content f x) ++ bytes)
  pub content-rename_new :
      (f : fs.Files) (a b : FileName)
      → a ≢ b
      → fs.content f b ≡ none
      → fs.content (fs.rename a b f) b ≡ fs.content f a
  pub content-rename_old :
      (f : fs.Files) (a b : FileName)
      → a ≢ b
      → fs.content f b ≡ none
      → fs.content (fs.rename a b f) a ≡ none
  pub content-rename_other :
      (f : fs.Files) (a b y : FileName)
      → a ≢ y
      → b ≢ y
      → fs.content (fs.rename a b f) y ≡ fs.content f y

module _ (fs : FileSystem) where
  -- QFile::size
  abbrev pub size : fs.Files → FileName → ℕ
  size f x = length (bytes_of (fs.content f x))

  -- The loop of checkAndRotate, from `i` down to 2.
  unfoldable pub shift_files : ℕ → fs.Files → fs.Files
  shift_files zero f = f
  shift_files (suc zero) f = f
  shift_files (suc (suc i)) f =
      let f1 = fs.remove (numbered (suc (suc i))) f in
      shift_files (suc i) (fs.rename (numbered (suc i)) (numbered (suc (suc i))) f1)

  -- checkAndRotate, with logMaxFileSize and logCount
  unfoldable pub check_and_rotate : ℕ → ℕ → fs.Files → fs.Files
  unfolding shift_files
  check_and_rotate max_file_size log_count f =
      let f1 = shift_files log_count f in
      let rotated = fs.rename log_file (numbered 1) (fs.remove (numbered 1) f1) in
      if ltb max_file_size (size f log_file)
      then if log_count == 0 then fs.remove log_file f else rotated
      else f

  -- write_msg, for a text that Logger::msg_string has made: the files, and whether the text went to the
  -- file or else to the standard error. `no_name` tells whether the name of the log is empty.
  unfoldable pub write_msg : Bool → ℕ → ℕ → List ℕ → fs.Files → fs.Files × Bool
  unfolding check_and_rotate
  write_msg no_name max_file_size log_count text f =
      let f1 = check_and_rotate max_file_size log_count f in
      let written : fs.Files × Bool = elim (fs.append log_file (text ++ 10 ∷ []) f1) [
        | none ↦ (f1, false)
        | some f2 ↦ (f2, true)
      ] in
      if no_name then (f, false) else written
