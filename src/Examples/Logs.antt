-- ===== src/Examples/Logs.antt =====
-- The theorems on the hash table's loop, the log files and the settings at concrete inputs.
use mathlib.Core.List.{foldl}
use bf.Base.{
  ℕ, suc, ◌+◌, ◌≤◌, ◌≡◌, ◌≢◌, refl, sym, ap, ◌∙◌, Bool, true, false, List, [], ◌∷◌, ◌++◌, Option,
  none, some, filter, if◌then◌else◌, ◌==◌, ==_refl, ==_iff, Bool-cases, inl, inr, arith,
}
use bf.HashTable.{
  HashTable, HashEntry, hash_table_init, hash_table_insert, hash_table_for_each, entry_matches,
  held, IsTable,
}
use bf.HashTable.Laws.{init-IsTable, insert-IsTable}
use bf.HashTable.ForEach.{
  visited, IsPlaced, init-IsPlaced, insert-IsPlaced, hash_table_for_each-held,
}
use bf.FileLogger.{
  FileName, log_file, numbered, FileSystem, IsFileSystem, bytes_of, size, check_and_rotate,
  write_msg,
}
use bf.FileLogger.Rotation.{rotated, check_and_rotate-rotated, write_msg-le}
use bf.Names.{codes}
use bf.ServiceConfig.{
  BfConfig, Environment, document, config_default, initial_settings, init, is_empty, ServiceElement,
}
use bf.ServiceConfig.Loading.{Loaded, init-Loaded}

-- A table of ten buckets with one entry.
abbrev one_entry : HashTable
one_entry = hash_table_insert (hash_table_init 10) 7 (1 ∷ 2 ∷ []) 2

one_entry-IsTable : IsTable one_entry
one_entry-IsTable =
    insert-IsTable (hash_table_init 10) 7 (1 ∷ 2 ∷ []) 2 refl (init-IsTable 10 (omega arith))

one_entry-IsPlaced : IsPlaced one_entry
one_entry-IsPlaced =
    insert-IsPlaced (hash_table_init 10) 7 (1 ∷ 2 ∷ []) 2 refl (init-IsTable 10 (omega arith))
      (init-IsPlaced 10)

abbrev count_entry : ℕ → HashEntry → ℕ
count_entry n e = suc n

hash_table_for_each-held_example :
    (hash_table_for_each count_entry one_entry 0 ≡ foldl count_entry 0 (visited one_entry))
    × (filter (entry_matches (1 ∷ 2 ∷ []) 2) (visited one_entry) ≡ held one_entry (1 ∷ 2 ∷ []) 2)
hash_table_for_each-held_example =
    hash_table_for_each-held one_entry count_entry 0 (1 ∷ 2 ∷ []) 2 one_entry-IsTable
      one_entry-IsPlaced refl

-- Files by their names.
abbrev same : FileName → FileName → Bool
same log_file log_file = true
same log_file (numbered j) = false
same (numbered i) log_file = false
same (numbered i) (numbered j) = i == j

same_refl : (x : FileName) → same x x ≡ true
same_refl log_file = refl
same_refl (numbered i) = ==_refl i

same_ne : (x y : FileName) → x ≢ y → same y x ≡ false
same_ne log_file log_file h = absurd (h refl)
same_ne log_file (numbered j) h = refl
same_ne (numbered i) log_file h = refl
same_ne (numbered i) (numbered j) h = elim (Bool-cases (j == i)) [
  | inl e ↦ absurd (h (ap numbered (sym ((==_iff j i).0 e))))
  | inr e ↦ e
]

abbrev Contents : Type 0
Contents = FileName → Option (List ℕ)

abbrev put : FileName → Option (List ℕ) → Contents → Contents
put x c f y = if same y x then c else f y

abbrev renamed : FileName → FileName → Contents → Option (List ℕ) → Contents
renamed a b f none = put b (f a) (put a none f)
renamed a b f (some taken) = f

abbrev files : FileSystem
files = record {
  Files = Contents;
  content = λ f x. f x;
  remove = λ x f. put x none f;
  rename = λ a b f. renamed a b f (f b);
  append = λ x bytes f. some (put x (some (bytes_of (f x) ++ bytes)) f);
}

abbrev content_at : Option Contents → FileName → Option (List ℕ)
content_at none y = none
content_at (some f) y = f y

renamed_other :
    (f : Contents) (a b y : FileName) (c : Option (List ℕ))
    → a ≢ y
    → b ≢ y
    → renamed a b f c y ≡ f y
renamed_other f a b y none h k = rw (same_ne b y k, same_ne a y h)
renamed_other f a b y (some taken) h k = refl

files-IsFileSystem : IsFileSystem files
files-IsFileSystem = record {
  content-remove_self = λ f x. rw (same_refl x);
  content-remove_other = λ f x y h. rw (same_ne x y h);
  content-append =
      λ f f' x bytes e. ap (λ (o : Option Contents). content_at o x) (sym e) ∙ rw (same_refl x);
  content-rename_new = λ f a b h e. rw (e, same_refl b);
  content-rename_old = λ f a b h e. rw (e, same_ne b a (λ p. h (sym p)), same_refl a);
  content-rename_other = λ f a b y h k. renamed_other f a b y (f b) h k;
}

-- A log of four bytes, and one old file.
abbrev four_bytes : Contents
four_bytes = put log_file (some (1 ∷ 2 ∷ 3 ∷ 4 ∷ [])) (put (numbered 1) (some (5 ∷ [])) (λ y. none))

check_and_rotate-rotated_example :
    check_and_rotate files 3 2 four_bytes (numbered 2) ≡ rotated 3 2 four_bytes (numbered 2)
check_and_rotate-rotated_example =
    check_and_rotate-rotated files files-IsFileSystem 3 2 four_bytes (numbered 2)

-- The old file has moved up.
moved_up : rotated 3 2 four_bytes (numbered 2) ≡ some (5 ∷ [])
unfolding rotated
moved_up = refl

write_msg-le_example :
    size files (write_msg files false 3 2 (6 ∷ []) four_bytes).0 log_file ≤ 3 + 1 + 1
write_msg-le_example = write_msg-le files files-IsFileSystem 3 2 (6 ∷ []) four_bytes

-- One `service_config` with a file for the log and no other attribute.
abbrev service : ServiceElement
service = record { networks = []; logs = (λ name. some (codes "/tmp/log")) ∷ []; processes = [] }

abbrev env : Environment
env = record {
  exists = λ path. true;
  config_file = λ path. document ((service ∷ []) ∷ []);
  config_env = [];
  to_ushort = λ text. 3;
  to_long_long = λ text. 1000;
}

abbrev blank : BfConfig
blank = record { initialized_state = 7; file_path = []; settings = initial_settings }

init-Loaded_example :
    Loaded env (init env blank)
    × ((init env blank).file_path
        ≡ (if true then config_default else if is_empty [] then [] else []))
init-Loaded_example = init-Loaded env blank
