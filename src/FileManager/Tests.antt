-- ===== src/FileManager/Tests.antt =====
-- Files in memory, and the theorems on src/filemanager.cpp at three files of two pieces.
use uenclient.Common.{
  ℕ, map, ◌+◌, ◌*◌, ◌≡◌, refl, ap, sym, true, false, List, [], ◌∷◌, ◌++◌, Bytes, length, take,
  take_all, drop, codes, arith,
}
use uenclient.Common.{ℤ, pos, negsuc, Option, some, none}
use uenclient.MetaInfo.Info.{MetaInfo, unknown, multi_file_form, total_size}
use uenclient.FileManager.Generate.{Directory, Layout, generate_files}
use uenclient.FileManager.Generate.Sizes.{lengths_of, generate_files-AreLaidOut}
use uenclient.FileManager.Disk.{Disk}
use uenclient.FileManager.Blocks.{read_block, write_block, image}
use uenclient.FileManager.Reading.{read_block-image}
use uenclient.FileManager.Writing.{Replaced, write_block-Replaced, read_block-write_block}
use uenclient.FileManager.Requests.{Manager, verify_file_contents, cycle}
use uenclient.FileManager.Verification.{IsVerified, verify_file_contents-is_intact}
use uenclient.FileManager.Cycle.{reply, spliced, cycle_lem}

abbrev memory : Disk
memory = record {
  File = Bytes;
  opens = λ f. true;
  contents = λ f. f;
  read_at = λ f pos n. take n (drop pos f);
  read_at_is = λ f pos n. refl;
  write_at = λ f pos x. (take pos f ++ (x ++ drop (pos + length x) f), length x);
  write_at_is = λ f pos x h.
      ap (λ (y : Bytes). take pos f ++ (y ++ drop (pos + length x) f))
        (sym (take_all (length x) x (omega arith)));
  write_at-le = λ f pos x. omega arith;
  opens-write_at = λ f pos x. refl;
}

abbrev files : List (Bytes × ℕ)
files = (codes "abc", 3) ∷ (codes "", 0) ∷ (codes "defgh", 5) ∷ []

across : read_block memory 4 files 0 2 4 ≡ (codes "cdef", false)
unfolding read_block
across = refl

read_block-image_example :
    read_block memory 4 files 0 2 4 ≡ (take 4 (drop (0 * 4 + 2) (image memory files)), false)
read_block-image_example =
    read_block-image memory 4 files 0 2 4 (refl, refl, (refl, refl, (refl, refl, tt)))

write_block-Replaced_example :
    Replaced memory (0 * 4 + 2) (codes "XYZ") files (write_block memory 4 files 0 2 (codes "XYZ"))
write_block-Replaced_example =
    write_block-Replaced memory (λ f pos x. refl) 4 files 0 2 (codes "XYZ")
      (refl, refl, (refl, refl, (refl, refl, tt))) (omega arith) (omega arith)

read_block-write_block_example :
    read_block memory 4 (write_block memory 4 files 0 2 (codes "XYZ")).files 0 2 3
    ≡ (codes "XYZ", false)
read_block-write_block_example =
    read_block-write_block memory (λ f pos x. refl) 4 files 0 2 (codes "XYZ")
      (refl, refl, (refl, refl, (refl, refl, tt))) (omega arith) (omega arith)

-- A hash that is the data itself, and a torrent of two pieces of which the second is broken.
abbrev manager : Manager Bytes
manager = record {
  files = files;
  piece_length = 4;
  total_length = 8;
  sha1s = codes "abcd" ∷ codes "efgX" ∷ [];
  new_file = false;
  read_id = 1;
  read_requests = record { id = 0; piece_index = 0; offset = 2; length_of = 4 } ∷ [];
  write_requests = record { piece_index = 0; offset = 2; bytes = codes "XYZ" } ∷ [];
  pending_verifications = [];
  start_verification = false;
  woke_up = true;
  verified_pieces = [];
  signals = [];
}

abbrev same : Bytes → Bytes
same x = x

verify_file_contents-is_intact_example :
    IsVerified memory same manager (verify_file_contents memory same [] manager)
verify_file_contents-is_intact_example =
    verify_file_contents-is_intact memory same manager (refl, refl, (refl, refl, (refl, refl, tt)))
      refl refl

cycle_lem_example :
    let n = cycle memory same manager in
    (n.signals ≡ manager.signals ++ map (reply memory same manager) manager.read_requests)
    × (image memory n.files ≡ spliced 4 manager.write_requests (image memory files))
    × (n.read_requests ≡ [])
    × (n.write_requests ≡ [])
cycle_lem_example =
    cycle_lem memory same (λ f pos x. refl) manager (refl, refl, (refl, refl, (refl, refl, tt)))
      ((omega arith, omega arith), tt) refl

-- Files that are only their sizes, empty when they are made.
abbrev resized : ℤ → ℕ → Option ℕ
resized (pos n) f = some n
resized (negsuc n) f = none

resized-size : (z : ℤ) (f g : ℕ) → resized z f ≡ some g → pos g ≡ z
resized-size (pos n) f g h = cc
resized-size (negsuc n) f g h = cc

abbrev directory : Directory
directory = record {
  File = ℕ;
  make_path = λ p. true;
  exists = λ p. false;
  path_of = λ p. p;
  open_file = λ p. some 0;
  size = λ f. f;
  resize_to = resized;
  size-resize_to = resized-size;
}

abbrev two_files : MetaInfo
two_files = record {
  err_string = unknown;
  content = [];
  info_data = [];
  file_form = some multi_file_form;
  single_file = record {
    length_of = pos 0;
    md5sum = [];
    name = [];
    piece_length = pos 0;
    sha1_sums = [];
  };
  multi_files =
      record { length_of = pos 3; md5sum = []; path = codes "a" }
      ∷ record { length_of = pos 5; md5sum = []; path = codes "b" }
      ∷ [];
  announce = [];
  announce_list = [];
  creation_date = none;
  comment = [];
  created_by = [];
  name = codes "x";
  piece_length = pos 4;
  sha1_sums = [] ∷ [] ∷ [];
}

abbrev nothing_yet : Layout ℕ
nothing_yet = record {
  files = [];
  file_sizes = [];
  new_file = false;
  total_length = pos 0;
  piece_length = pos 0;
  sha1s = [];
  num_pieces = none;
  trouble = none;
}

two_files-generated : (generate_files directory [] two_files nothing_yet).0 ≡ true
unfolding generate_files
two_files-generated = refl

generate_files-AreLaidOut_example :
    let m = (generate_files directory [] two_files nothing_yet).1 in
    (map pos m.file_sizes ≡ lengths_of directory two_files.multi_files)
    × (total_size two_files ≡ some m.total_length)
    × (m.num_pieces ≡ some (length two_files.sha1_sums))
generate_files-AreLaidOut_example =
    generate_files-AreLaidOut directory [] two_files nothing_yet refl refl refl two_files-generated
