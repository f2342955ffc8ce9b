-- ===== src/MetaInfo/Hashing.antt =====
-- `hashFile` and `hashDirectory` of src/metainfo.cpp. What Qt reads from the disk and the hash are
-- parameters.
use uenclient.Common.{
  ℕ, ◌≡◌, Bool, true, false, Option, none, some, List, [], ◌∷◌, ◌++◌, map, Bytes, pos, length,
  Option-cases, inl, inr,
}
use uenclient.MetaInfo.Variant.{Text}
use uenclient.MetaInfo.Info.{MetaInfo, single_file_form, parts}

-- The content of the file with a name, if it can be opened and read, and the text without the
-- directory's path.
module _ (hash : Bytes → Bytes) (opened : Text → Option Bytes) (without : Text → Text → Text) where
  -- `while (!atEnd()) … hash(read(metaLenght))`, for a positive length.
  unfoldable pub hash_parts : ℕ → Bytes → List Bytes
  unfolding parts
  hash_parts piece bytes = map hash (parts piece (length bytes) bytes)

  -- `hashFile`: the members are set when all has been read.
  unfoldable pub hash_file : Text → ℕ → MetaInfo → Bool × MetaInfo
  unfolding hash_parts
  hash_file file piece m = elim (opened file) [
    | none ↦ (false, m)
    | some bytes ↦ (
      true,
      record m {
        file_form = some single_file_form;
        single_file = record {
          length_of = pos (length bytes);
          md5sum = [];
          name = file;
          piece_length = pos piece;
          sha1_sums = hash_parts piece bytes;
        };
      },
    )
  ]

  -- One file of the directory.
  unfoldable pub add_file : Text → Text → ℕ → Bytes → MetaInfo → MetaInfo
  unfolding hash_parts
  add_file path file piece bytes m = record m {
    sha1_sums = m.sha1_sums ++ hash_parts piece bytes;
    multi_files =
        m.multi_files
        ++ record { length_of = pos (length bytes); md5sum = []; path = without file path } ∷ [];
  }

  -- `foreach (QString curFilePath, fdir.entryList())`.
  unfoldable pub hash_entries : Text → ℕ → List Text → MetaInfo → Bool × MetaInfo
  unfolding add_file
  hash_entries path piece [] m = (true, m)
  hash_entries path piece (file ∷ files) m = elim (opened file) [
    | none ↦ (false, m)
    | some bytes ↦ hash_entries path piece files (add_file path file piece bytes m)
  ]

  -- `hashDirectory`, of a directory with the names that it lists, if it is readable.
  unfoldable pub hash_directory : Text → ℕ → Option (List Text) → MetaInfo → Bool × MetaInfo
  unfolding hash_entries
  hash_directory path piece none m = (false, m)
  hash_directory path piece (some names) m = hash_entries path piece names m

  module _ (path : Text) (piece : ℕ) where
    -- A file that cannot be opened makes the call fail, wherever it stands.
    hash_entries-unopened :
        (before after : List Text) (file : Text) (m : MetaInfo)
        → opened file ≡ none
        → (hash_entries path piece (before ++ file ∷ after) m).0 ≡ false
    unfolding hash_entries
    hash_entries-unopened [] after file m h = rw h
    hash_entries-unopened (f ∷ before) after file m h = elim (Option-cases (opened f)) [
      | inl e ↦ rw e
      | inr (bytes, e) ↦
          rw e (hash_entries-unopened before after file (add_file path f piece bytes m) h)
    ]

    -- A directory lists itself, and a directory cannot be opened as a file: `hashDirectory` fails
    -- whatever the directory holds.
    pub hash_directory_self :
        (before after : List Text) (self : Text) (m : MetaInfo)
        → opened self ≡ none
        → (hash_directory path piece (some (before ++ self ∷ after)) m).0 ≡ false
    unfolding hash_directory
    hash_directory_self before after self m h = hash_entries-unopened before after self m h
