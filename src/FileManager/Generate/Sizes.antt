-- ===== src/FileManager/Generate/Sizes.antt =====
-- The lengths of the files that `generateFiles` of src/filemanager.cpp leaves.
use uenclient.Common.{
  ℕ, ◌≡◌, refl, sym, ap, subst, ◌∙◌, Bool, true, not, ◌&&◌, none, some, List, [], ◌∷◌, ◌++◌, map, ℤ,
  pos, ◌+ℤ◌, length, is_empty, if◌then◌else◌, Bool-cases, Option-cases, inl, inr, arith,
  append_assoc, append-nil,
}
use mathlib.Core.List.{map-append}
use uenclient.MetaInfo.Variant.{Text}
use uenclient.MetaInfo.Info.{MetaInfo, MultiFile, multi_file_form, sum_lengths, total_size}
use uenclient.FileManager.Generate.{
  Directory, Layout, same_integer, keep_file, take_file, take_entry, take_entries, generate_multi,
  generate_files, prefix_of, with_slash,
}

same_integer-eq : (a b : ℤ) → same_integer a b ≡ true → a ≡ b
same_integer-eq a b h = ground arith

module _ (d : Directory) where
  open d use {File, make_path, exists, path_of, open_file, size, resize_to, size-resize_to}

  -- One more file, of that length.
  record Gains (z : ℤ) (l m : Layout File) : Type 0 where
    sizes : map pos m.file_sizes ≡ map pos l.file_sizes ++ z ∷ []
    same_total : m.total_length ≡ l.total_length

  kept-Gains :
      (f : File) (z : ℤ) (l m : Layout File)
      → pos (size f) ≡ z
      → m.file_sizes ≡ l.file_sizes ++ size f ∷ []
      → m.total_length ≡ l.total_length
      → Gains z l m
  kept-Gains f z l m h e t = record {
    sizes =
        ap (map pos) e
        ∙ map-append pos l.file_sizes (size f ∷ [])
        ∙ ap (λ (x : ℤ). map pos l.file_sizes ++ x ∷ []) h;
    same_total = t;
  }

  keep_file-Gains :
      (path : Text) (z : ℤ) (f : File) (l : Layout File)
      → (keep_file d path z f l).0 ≡ true
      → Gains z l (keep_file d path z f l).1
  unfolding keep_file
  keep_file-Gains path z f l h = elim (Bool-cases (same_integer (pos (size f)) z)) [
    | inl e ↦ rw (e, keep_file) (kept-Gains f z l _ (same_integer-eq (pos (size f)) z e) refl refl)
    | inr e ↦ elim (Option-cases (resize_to z f)) [
      | inl r ↦ cc (rw (e, r, keep_file) at h)
      | inr (g, r) ↦ rw (e, r, keep_file) (kept-Gains g z l _ (size-resize_to z f g r) refl refl)
    ]
  ]

  take_file-Gains :
      (path : Text) (z : ℤ) (l : Layout File)
      → (take_file d path z l).0 ≡ true
      → Gains z l (take_file d path z l).1
  unfolding take_file
  take_file-Gains path z l h = elim (Option-cases (open_file path)) [
    | inl r ↦ cc (rw (r, take_file) at h)
    | inr (f, r) ↦ rw (r, take_file) (keep_file-Gains path z f l (rw (r, take_file) at h))
  ]

  -- One more entry, and its length in the total.
  record Counts (z : ℤ) (l m : Layout File) : Type 0 where
    sizes : map pos m.file_sizes ≡ map pos l.file_sizes ++ z ∷ []
    counted : m.total_length ≡ l.total_length +ℤ z

  take_entry-Counts :
      (prefix : Text) (e : MultiFile) (l : Layout File)
      → (take_entry d prefix e l).0 ≡ true
      → Counts e.length_of l (take_entry d prefix e l).1
  unfolding take_entry
  take_entry-Counts prefix e l h =
      let folder : Text = path_of (prefix ++ e.path) in
      elim (Bool-cases (not (exists folder) && not (make_path folder))) [
        | inl b ↦ cc (rw (b, take_entry) at h)
        | inr b ↦ elim (Bool-cases (take_file d (prefix ++ e.path) e.length_of l).0) [
          | inl k ↦
              let g = take_file-Gains (prefix ++ e.path) e.length_of l k in
              rw (b, k, take_entry)
                (record {
                  sizes = g.sizes;
                  counted = ap (λ (x : ℤ). x +ℤ e.length_of) g.same_total;
                })
          | inr k ↦ cc (rw (b, k, take_entry) at h)
        ]
      ]

  abbrev pub lengths_of : List MultiFile → List ℤ
  lengths_of es = map (λ (e : MultiFile). e.length_of) es

  record CountsAll (es : List MultiFile) (l m : Layout File) : Type 0 where
    sizes : map pos m.file_sizes ≡ map pos l.file_sizes ++ lengths_of es
    counted : m.total_length ≡ sum_lengths l.total_length es

  take_entries-CountsAll :
      (prefix : Text) (es : List MultiFile) (l : Layout File)
      → (take_entries d prefix es l).0 ≡ true
      → CountsAll es l (take_entries d prefix es l).1
  unfolding take_entries sum_lengths
  take_entries-CountsAll prefix [] l h = record {
    sizes = sym (append-nil (map pos l.file_sizes));
    counted = refl;
  }
  take_entries-CountsAll prefix (e ∷ es) l h = elim (Bool-cases (take_entry d prefix e l).0) [
    | inl k ↦
        let m : Layout File = (take_entry d prefix e l).1 in
        let first = take_entry-Counts prefix e l k in
        let rest = take_entries-CountsAll prefix es m (rw (k, take_entries) at h) in
        rw (k, take_entries)
          (record {
            sizes =
                rest.sizes
                ∙ ap (λ (xs : List ℤ). xs ++ lengths_of es) first.sizes
                ∙ append_assoc (map pos l.file_sizes) (e.length_of ∷ []) (lengths_of es);
            counted = rest.counted ∙ ap (λ (z : ℤ). sum_lengths z es) first.counted;
          })
    | inr k ↦ cc (rw (k, take_entries) at h)
  ]

  -- What a new manager's files are for a torrent of many files.
  record AreLaidOut (info : MetaInfo) (m : Layout File) : Type 0 where
    pub sizes : map pos m.file_sizes ≡ lengths_of info.multi_files
    pub total : m.total_length ≡ sum_lengths (pos 0) info.multi_files
    pub pieces : m.num_pieces ≡ some (length info.sha1_sums)

  generate_multi-AreLaidOut :
      (destination : Text) (info : MetaInfo) (l : Layout File)
      → l.file_sizes ≡ []
      → l.total_length ≡ pos 0
      → (generate_multi d destination info l).0 ≡ true
      → AreLaidOut info (generate_multi d destination info l).1
  unfolding generate_multi
  generate_multi-AreLaidOut destination info l no_sizes no_total h =
      let top : Text = prefix_of d destination in
      let prefix : Text = if is_empty info.name then top else with_slash (top ++ info.name) in
      elim (Bool-cases (not (make_path prefix))) [
        | inl b ↦ cc (rw (b, generate_multi) at h)
        | inr b ↦ elim (Bool-cases (take_entries d prefix info.multi_files l).0) [
          | inl k ↦
              let g = take_entries-CountsAll prefix info.multi_files l k in
              rw (b, k, generate_multi)
                (record {
                  sizes =
                      g.sizes
                      ∙ ap (λ (ns : List ℕ). map pos ns ++ lengths_of info.multi_files) no_sizes;
                  total = g.counted ∙ ap (λ (z : ℤ). sum_lengths z info.multi_files) no_total;
                  pieces = refl;
                })
          | inr k ↦ cc (rw (b, k, generate_multi) at h)
        ]
      ]

  -- If `generateFiles` of a new manager returns true for a torrent of many files, every file has the
  -- length that the torrent says, in order, the total length is that of `MetaInfo::totalSize`, and
  -- there are as many pieces as hashes.
  pub generate_files-AreLaidOut :
      (destination : Text) (info : MetaInfo) (l : Layout File)
      → info.file_form ≡ some multi_file_form
      → l.file_sizes ≡ []
      → l.total_length ≡ pos 0
      → (generate_files d destination info l).0 ≡ true
      → let m = (generate_files d destination info l).1 in
        (map pos m.file_sizes ≡ lengths_of info.multi_files)
        × (total_size info ≡ some m.total_length)
        × (m.num_pieces ≡ some (length info.sha1_sums))
  unfolding generate_files total_size
  generate_files-AreLaidOut destination info l form no_sizes no_total h =
      let l' : Layout File = record l { num_pieces = none } in
      let same : generate_files d destination info l ≡ generate_multi d destination info l' =
        rw (form, generate_files) refl in
      let laid =
        generate_multi-AreLaidOut destination info l' no_sizes no_total
          (ap (λ (r : Bool × Layout File). r.0) (sym same) ∙ h) in
      subst
        (λ (r : Bool × Layout File).
          (map pos r.1.file_sizes ≡ lengths_of info.multi_files)
          × (total_size info ≡ some r.1.total_length)
          × (r.1.num_pieces ≡ some (length info.sha1_sums)))
        (sym same) (laid.sizes, rw (form, total_size) (ap some (sym laid.total)), laid.pieces)
