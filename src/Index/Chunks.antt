-- ===== src/Index/Chunks.antt =====
-- The chunks of one file in the index (src/tools/index.rs).
use vexcoder.Prelude.{
  ◌≡◌, refl, ap, subst, ◌∙◌, inl, inr, ℕ, Bool, true, false, not, Bool-cases, Option, none, some,
  List, [], ◌∷◌, ◌++◌, retain, ltb, Text, text_eq, text_eq_iff,
}
use vexcoder.Index.Items.{IndexChunk, SourceLanguage}
use vexcoder.Index.Owned.{Owned, if-Owned, parse_source_file-Owned}
use vexcoder.Index.Build.{
  Paths, Files, workspace_relative, detect_source_language, is_excluded, size_or_zero, parse_text,
  read_source, file_chunks, walked_chunks, chunks_of_walk,
}

-- The chunks of one file, in their order
abbrev pub of_path : Text → List IndexChunk → List IndexChunk
of_path r index = retain (λ c. text_eq c.path r) index

pub retain-append :
    {A : Type 0} (p : A → Bool) (xs ys : List A) → retain p (xs ++ ys) ≡ retain p xs ++ retain p ys
retain-append p [] ys = refl
retain-append p (x ∷ xs) ys =
    let ih = retain-append p xs ys in
    elim (Bool-cases (p x)) [ inl kept ↦ rw kept (ap (◌∷◌ x) ih) | inr out ↦ rw out ih ]

pub of_path-own : (r : Text) (xs : List IndexChunk) → Owned r xs → of_path r xs ≡ xs
of_path-own r [] o = refl
of_path-own r (c ∷ xs) (e, o) =
    let same : text_eq c.path r ≡ true = (text_eq_iff c.path r).1 e in
    rw same (ap (◌∷◌ c) (of_path-own r xs o))

pub of_path-other :
    (r s : Text) (xs : List IndexChunk) → text_eq s r ≡ false → Owned s xs → of_path r xs ≡ []
of_path-other r s [] ne o = refl
of_path-other r s (c ∷ xs) ne (e, o) =
    let differs : text_eq c.path r ≡ false = ap (λ t. text_eq t r) e ∙ ne in
    rw differs (of_path-other r s xs ne o)

pub of_path-without_same :
    (r : Text) (xs : List IndexChunk) → of_path r (retain (λ c. not (text_eq c.path r)) xs) ≡ []
of_path-without_same r [] = refl
of_path-without_same r (c ∷ xs) =
    let ih = of_path-without_same r xs in
    elim (Bool-cases (text_eq c.path r)) [
      | inl same ↦ rw same ih
      | inr other ↦ rw (other, other) ih
    ]

-- An element that the first test keeps, the second one keeps too.
pub retain-retain :
    {A : Type 0} (p q : A → Bool) (xs : List A)
    → ((x : A) → p x ≡ true → q x ≡ true)
    → retain p (retain q xs) ≡ retain p xs
retain-retain p q [] h = refl
retain-retain p q (x ∷ xs) h =
    let ih = retain-retain p q xs h in
    elim (Bool-cases (q x)) [
      | inl kept ↦ elim (Bool-cases (p x)) [
        | inl yes_p ↦ rw (kept, yes_p) (ap (◌∷◌ x) ih)
        | inr no_p ↦ rw (kept, no_p) ih
      ]
      | inr out ↦ elim (Bool-cases (p x)) [
        | inl yes_p ↦ absurd (let kept = h x yes_p in cc)
        | inr no_p ↦ rw (out, no_p) ih
      ]
    ]

module _ (paths : Paths) where
  open paths use {PathBuf}

  abbrev pub rel : PathBuf → Text
  rel = workspace_relative paths

  parse_text-Owned :
      (r : Text) (language : SourceLanguage) (text : Option Text)
      → Owned r (parse_text paths r language text)
  parse_text-Owned r language none = tt
  parse_text-Owned r language (some source) =
      parse_source_file-Owned r language (paths.parse language source)

  read_source-Owned :
      (files : Files paths) (max_file_size : ℕ) (path : PathBuf) (r : Text)
      (language : Option SourceLanguage)
      → Owned r (read_source paths files max_file_size path r language)
  read_source-Owned files max_file_size path r none = tt
  read_source-Owned files max_file_size path r (some language) =
      if-Owned r (ltb max_file_size (size_or_zero paths (files.metadata_len path))) [] _ tt
        (parse_text-Owned r language (files.read_to_string path))

  pub file_chunks-Owned :
      (files : Files paths) (max_file_size : ℕ) (path : PathBuf)
      → Owned (rel path) (file_chunks paths files max_file_size path)
  unfolding file_chunks
  file_chunks-Owned files max_file_size path =
      read_source-Owned files max_file_size path (rel path) (detect_source_language paths path)

  pub walked_chunks-Owned :
      (files : Files paths) (exclude : List Text) (max_file_size : ℕ) (path : PathBuf)
      → Owned (rel path) (walked_chunks paths files exclude max_file_size path)
  unfolding walked_chunks
  walked_chunks-Owned files exclude max_file_size path =
      if-Owned (rel path) (is_excluded paths exclude (rel path)) [] _ tt
        (file_chunks-Owned files max_file_size path)

  module _ (exclude : List Text) (max_file_size : ℕ) where
    abbrev pub of_walk : Files paths → List PathBuf → List IndexChunk
    of_walk files walked = chunks_of_walk paths files exclude max_file_size walked

    -- The chunks of a path are those of the files with this path.
    pub of_path-of_walk :
        (files : Files paths) (r : Text) (walked : List PathBuf)
        → of_path r (of_walk files walked) ≡ of_walk files (retain (λ q. text_eq (rel q) r) walked)
    of_path-of_walk files r [] = refl
    of_path-of_walk files r (q ∷ walked) =
        let own = walked_chunks-Owned files exclude max_file_size q in
        let chunks = walked_chunks paths files exclude max_file_size q in
        retain-append (λ c. text_eq c.path r) chunks (of_walk files walked)
        ∙ elim (Bool-cases (text_eq (rel q) r)) [
          | inl same ↦
              let here =
                of_path-own r chunks
                  (subst (λ t. Owned t chunks) ((text_eq_iff (rel q) r).0 same) own) in
              rw same (
                ap (λ l. l ++ of_path r (of_walk files walked)) here
                ∙ ap (λ l. chunks ++ l) (of_path-of_walk files r walked))
          | inr other ↦ rw other (
              ap (λ l. l ++ of_path r (of_walk files walked))
                (of_path-other r (rel q) chunks other own)
              ∙ of_path-of_walk files r walked)
        ]
