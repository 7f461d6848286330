-- ===== src/Packaging/Files.antt =====
-- native.py: the files of a package, which the archive names under `files/`.
use yandex_codeforces_analyz.Prelude.{
  str_eq_refl, str_eq_comm, get_str-nil, get_str-put_str, String, ◌≡◌, refl, sym, ap, ◌∙◌, subst,
  inl, inr, false, Option, none, List, [], ◌∷◌, arith, if◌then◌else◌, Bool-cases, Option-cases,
  str_eq, str_eq_iff, after_prefix, get_str, after_prefix-append, after_prefix_complete,
}
use yandex_codeforces_analyz.Packaging.{
  Libraries, read_member, ends_with_slash, file_name, contains, read_files,
}
use yandex_codeforces_analyz.Packaging.Members.{file_names, str_eq_of_prefix}

module _ (lib : Libraries) where
  open lib use {Bytes}

  -- the file `n` as the archive has it
  unfoldable pub kept : List (String × Bytes) → String → Option Bytes
  kept m n = if ends_with_slash (file_name n) then none else read_member (file_name n) m

  hit :
      (m : List (String × Bytes)) (n : String) (ns : List String)
      → get_str n (read_files lib m ns) ≡ (if contains (file_name n) ns then kept m n else none)
      → get_str n (read_files lib m (file_name n ∷ ns)) ≡ kept m n
  unfolding read_files kept
  hit m n ns h = elim (Bool-cases (ends_with_slash (file_name n))) [
    | inl t ↦ ground (arith, h, t, after_prefix-append "files/" n)
    | inr f ↦ elim (Option-cases (read_member (file_name n) m)) [
      | inl e ↦ ground (arith, h, f, e, after_prefix-append "files/" n)
      | inr (d, e) ↦
          rw (after_prefix-append "files/" n, f, e, read_files)
            (get_str-put_str n n d (read_files lib m ns) ∙ rw (str_eq_refl n) refl)
    ]
  ]

  miss :
      (m : List (String × Bytes)) (n short : String) (ns : List String)
      → str_eq short n ≡ false
      → get_str n (read_files lib m (file_name short ∷ ns)) ≡ get_str n (read_files lib m ns)
  unfolding read_files
  miss m n short ns h = elim (Bool-cases (ends_with_slash (file_name short))) [
    | inl t ↦ rw (after_prefix-append "files/" short, t, read_files) refl
    | inr f ↦ elim (Option-cases (read_member (file_name short) m)) [
      | inl e ↦ rw (after_prefix-append "files/" short, f, e, read_files) refl
      | inr (d, e) ↦
          rw (after_prefix-append "files/" short, f, e, read_files)
            (get_str-put_str n short d (read_files lib m ns) ∙ rw h refl)
    ]
  ]

  -- one name of the archive more
  step :
      (m : List (String × Bytes)) (n short : String) (ns : List String)
      → get_str n (read_files lib m ns) ≡ (if contains (file_name n) ns then kept m n else none)
      → get_str n (read_files lib m (file_name short ∷ ns))
        ≡ (if contains (file_name n) (file_name short ∷ ns) then kept m n else none)
  step m n short ns h = elim (Bool-cases (str_eq short n)) [
    | inl t ↦
        rw (file_names short n, t)
          (ap (λ x. get_str n (read_files lib m (file_name x ∷ ns))) ((str_eq_iff short n).0 t)
            ∙ hit m n ns h)
    | inr f ↦ rw (file_names short n, f) (miss m n short ns f ∙ h)
  ]

  pub get_str-read_files :
      (m : List (String × Bytes)) (n : String) (ns : List String)
      → get_str n (read_files lib m ns) ≡ (if contains (file_name n) ns then kept m n else none)
  unfolding read_files
  get_str-read_files m n [] = get_str-nil n
  get_str-read_files m n (x ∷ ns) = elim (Option-cases (after_prefix "files/" x)) [
    | inl e ↦
        rw (e, str_eq_comm x (file_name n), str_eq_of_prefix "files/" n x e, read_files)
          (get_str-read_files m n ns)
    | inr (short, e) ↦
        subst
          (λ y.
            get_str n (read_files lib m (y ∷ ns))
            ≡ (if contains (file_name n) (y ∷ ns) then kept m n else none))
          (sym (after_prefix_complete "files/" x short e))
          (step m n short ns (get_str-read_files m n ns))
  ]
