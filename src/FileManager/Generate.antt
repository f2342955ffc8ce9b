-- ===== src/FileManager/Generate.antt =====
-- `generateFiles` of src/filemanager.cpp: the torrent's files are opened, or made, at their lengths.
-- What Qt does with paths and files is an interface.
pub mod Sizes
use uenclient.Common.{
  ℕ, zero, suc, ◌+◌, ◌≡◌, refl, sym, ap, ap₂, ◌∙◌, Bool, true, false, not, ◌&&◌, Option, none, some,
  List, [], ◌∷◌, ◌++◌, map, Bytes, codes, ℤ, pos, pos_part, neg_part, ◌+ℤ◌, length, is_empty, ◌==◌,
  if◌then◌else◌, Bool-cases, Option-cases, inl, inr, arith, append_assoc,
}
use uenclient.MetaInfo.Variant.{Text}
use uenclient.MetaInfo.Info.{
  MetaInfo, MultiFile, SingleFile, FileForm, single_file_form, multi_file_form, sum_lengths,
  total_size,
}

-- `QDir::mkpath`, `QFile::exists` and `QFileInfo::path`; a file opened to be read and written, made if
-- it was not there; its size and `QFile::resize`, which gives it the size asked for.
pub record Directory : Type 1 where
  pub File : Type 0
  pub make_path : Text → Bool
  pub exists : Text → Bool
  pub path_of : Text → Text
  pub open_file : Text → Option File
  pub size : File → ℕ
  pub resize_to : ℤ → File → Option File
  pub size-resize_to : (z : ℤ) (f g : File) → resize_to z f ≡ some g → pos (size g) ≡ z

pub data Trouble : Type 0 where
  no_directory : Text → Trouble
  no_file : Text → Trouble
  no_resize : Text → Trouble

-- The members that are set; `trouble` is the text of `errString` and its signal.
pub record Layout (File : Type 0) : Type 0 where
  pub files : List File
  pub file_sizes : List ℕ
  pub new_file : Bool
  pub total_length : ℤ
  pub piece_length : ℤ
  pub sha1s : List Bytes
  pub num_pieces : Option ℕ
  pub trouble : Option Trouble

abbrev pub same_integer : ℤ → ℤ → Bool
same_integer a b = pos_part a == pos_part b && neg_part a == neg_part b

unfoldable pub ends_with_slash : Text → Bool
ends_with_slash [] = false
ends_with_slash (c ∷ []) = c == b'/'
ends_with_slash (c ∷ d ∷ cs) = ends_with_slash (d ∷ cs)

unfoldable pub with_slash : Text → Text
unfolding ends_with_slash
with_slash p = if ends_with_slash p then p else p ++ codes "/"

module _ (d : Directory) where
  open d use {File, make_path, exists, path_of, open_file, size, resize_to, size-resize_to}

  abbrev pub failed : Trouble → Layout File → Bool × Layout File
  failed why l = (false, record l { trouble = some why })

  -- An open file is kept, at the length that the torrent says.
  unfoldable pub keep_file : Text → ℤ → File → Layout File → Bool × Layout File
  keep_file path len f l =
      let kept : File → Layout File → Bool × Layout File = λ g m.
        (true, record m { files = m.files ++ g ∷ []; file_sizes = m.file_sizes ++ size g ∷ [] }) in
      if same_integer (pos (size f)) len then kept f l else (elim (resize_to len f) [
        | none ↦ failed (no_resize path) (record l { new_file = true })
        | some g ↦ kept g (record l { new_file = true })
      ])

  unfoldable pub take_file : Text → ℤ → Layout File → Bool × Layout File
  unfolding keep_file
  take_file path len l = elim (open_file path) [
    | none ↦ failed (no_file path) l
    | some f ↦ keep_file path len f l
  ]

  -- One entry of the files.
  unfoldable pub take_entry : Text → MultiFile → Layout File → Bool × Layout File
  unfolding take_file
  take_entry prefix e l =
      let folder : Text = path_of (prefix ++ e.path) in
      let (ok, m) = take_file (prefix ++ e.path) e.length_of l in
      if not (exists folder) && not (make_path folder)
      then failed (no_directory folder) l
      else if ok
      then (true, record m { total_length = m.total_length +ℤ e.length_of })
      else (false, m)

  unfoldable pub take_entries : Text → List MultiFile → Layout File → Bool × Layout File
  unfolding take_entry
  take_entries prefix [] l = (true, l)
  take_entries prefix (e ∷ es) l =
      let (ok, m) = take_entry prefix e l in
      let rest = take_entries prefix es m in if ok then rest else (false, m)

  abbrev pub prefix_of : Text → Text
  prefix_of destination = if is_empty destination then [] else with_slash destination

  unfoldable pub generate_single : Text → SingleFile → Layout File → Bool × Layout File
  unfolding take_file with_slash
  generate_single destination f l =
      let prefix : Text = prefix_of destination in
      let (ok, m) = take_file (prefix ++ f.name) f.length_of l in
      if not (is_empty destination) && not (make_path prefix)
      then failed (no_directory prefix) l
      else if ok
      then (
        true,
        record m {
          piece_length = f.piece_length;
          total_length = f.length_of;
          sha1s = f.sha1_sums;
          num_pieces = some (length f.sha1_sums);
        },
      )
      else (false, m)

  unfoldable pub generate_multi : Text → MetaInfo → Layout File → Bool × Layout File
  unfolding take_entries with_slash
  generate_multi destination info l =
      let top : Text = prefix_of destination in
      let prefix : Text = if is_empty info.name then top else with_slash (top ++ info.name) in
      let (ok, m) = take_entries prefix info.multi_files l in
      if not (make_path prefix)
      then failed (no_directory prefix) l
      else if ok
      then (
        true,
        record m {
          piece_length = info.piece_length;
          sha1s = info.sha1_sums;
          num_pieces = some (length info.sha1_sums);
        },
      )
      else (false, m)

  -- `generateFiles`, of a new manager; a form that was never set is taken for the second one.
  unfoldable pub generate_files : Text → MetaInfo → Layout File → Bool × Layout File
  unfolding generate_single generate_multi
  generate_files destination info l =
      let l' : Layout File = record l { num_pieces = none } in
      elim info.file_form [
        | some single_file_form ↦ generate_single destination info.single_file l'
        | some multi_file_form ↦ generate_multi destination info l'
        | none ↦ generate_multi destination info l'
      ]
