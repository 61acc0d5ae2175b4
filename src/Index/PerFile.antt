-- ===== src/Index/PerFile.antt =====
-- What the update and the building give for one file, and for the others (src/tools/index.rs).
use vexcoder.Prelude.{
  ◌≡◌, refl, sym, ap, ◌∙◌, inl, inr, ℕ, Bool, true, false, not, Bool-cases, Option, none, some,
  List, [], ◌∷◌, ◌++◌, append-nil, retain, if◌then◌else◌, Text, text_eq, text_eq_iff,
}
use vexcoder.Index.Items.{IndexChunk, SourceLanguage}
use vexcoder.Index.Owned.{Owned, if-Owned}
use vexcoder.Index.Build.{
  Paths, Files, workspace_relative, detect_source_language, is_excluded, read_source, file_chunks,
  walked_chunks, build_index_filtered, without,
}
use vexcoder.Index.Chunks.{
  of_path, retain-append, of_path-own, of_path-other, of_path-without_same, retain-retain, rel,
  file_chunks-Owned, of_walk, of_path-of_walk,
}
use vexcoder.Index.Change.{IsChange}

text_eq-differs : (a b s : Text) → text_eq a s ≡ true → text_eq b s ≡ false → text_eq a b ≡ false
text_eq-differs a b s same ne = elim (Bool-cases (text_eq a b)) [
  | inl e ↦ absurd (let p = ap (λ t. text_eq t s) ((text_eq_iff a b).0 e) in cc)
  | inr e ↦ e
]

if-nil : (b : Bool) (xs : List IndexChunk) → xs ≡ [] → (if b then [] else xs) ≡ []
if-nil true xs e = refl
if-nil false xs e = e

module _ {paths : Paths} {before after : Files paths} {changed : Paths.PathBuf paths}
    (c : IsChange paths before after changed) (exclude : List Text) (max_file_size : ℕ) where
  open paths use {PathBuf}

  abbrev pub r : Text
  r = workspace_relative paths changed

  abbrev pub old : List IndexChunk
  old = of_walk paths exclude max_file_size before c.walked

  -- What the update adds
  abbrev pub added : List IndexChunk
  added =
      if is_excluded paths exclude r
      then []
      else if after.is_ignored r (after.is_dir changed)
      then []
      else file_chunks paths after max_file_size changed

  added-Owned : Owned r added
  added-Owned = if-Owned r (is_excluded paths exclude r) [] _ tt (
      if-Owned r (after.is_ignored r (after.is_dir changed)) [] _ tt
        (file_chunks-Owned paths after max_file_size changed))

  -- A file that is as it was gives the chunks that it gave.
  walked_chunks-same :
      (q : PathBuf)
      → text_eq (rel paths q) r ≡ false
      → walked_chunks paths before exclude max_file_size q
        ≡ walked_chunks paths after exclude max_file_size q
  unfolding walked_chunks file_chunks
  walked_chunks-same q other =
      ap (λ chunks. if is_excluded paths exclude (rel paths q) then [] else chunks)
        (read_source-same (detect_source_language paths q))
    where
      read_source-same :
          (l : Option SourceLanguage)
          → read_source paths before max_file_size q (rel paths q) l
            ≡ read_source paths after max_file_size q (rel paths q) l
      read_source-same none = refl
      read_source-same (some language) = rw (c.same_len q other, c.same_text q other) refl

  -- The other files give the same chunks before and after.
  of_walk-same :
      (s : Text) (walked : List PathBuf)
      → text_eq r s ≡ false
      → of_walk paths exclude max_file_size before (retain (λ q. text_eq (rel paths q) s) walked)
        ≡ of_walk paths exclude max_file_size after (retain (λ q. text_eq (rel paths q) s) walked)
  of_walk-same s [] ne = refl
  of_walk-same s (q ∷ walked) ne =
      let ih = of_walk-same s walked ne in
      elim (Bool-cases (text_eq (rel paths q) s)) [
        | inl same ↦ rw same (
            ap
              (λ l.
                l
                ++ of_walk paths exclude max_file_size before
                    (retain (λ q. text_eq (rel paths q) s) walked))
              (walked_chunks-same q (text_eq-differs (rel paths q) r s same ne))
            ∙ ap (λ l. walked_chunks paths after exclude max_file_size q ++ l) ih)
        | inr out ↦ rw out ih
      ]

  others-same :
      (s : Text)
      → text_eq r s ≡ false
      → retain (λ q. text_eq (rel paths q) s) c.walked
        ≡ retain (λ q. text_eq (rel paths q) s) c.walked_after
  others-same s ne =
      let keep : (q : PathBuf)
          → text_eq (rel paths q) s ≡ true
          → not (text_eq (rel paths q) r) ≡ true =
        λ q same. ap not (text_eq-differs (rel paths q) r s same ne) in
      sym (
        retain-retain (λ q. text_eq (rel paths q) s) (λ q. not (text_eq (rel paths q) r)) c.walked
          keep)
      ∙ (ap (retain (λ q. text_eq (rel paths q) s)) c.others
          ∙ retain-retain (λ q. text_eq (rel paths q) s) (λ q. not (text_eq (rel paths q) r))
              c.walked_after keep)

  -- What the file itself gives where the walk finds it
  abbrev pub own : List IndexChunk
  own = walked_chunks paths after exclude max_file_size changed

  added-own : added ≡ (if after.is_ignored r (after.is_dir changed) then [] else own)
  unfolding walked_chunks
  added-own = elim (Bool-cases (after.is_ignored r (after.is_dir changed))) [
    | inl ignored ↦ rw ignored (if-nil (is_excluded paths exclude r) [] refl)
    | inr kept ↦ rw kept refl
  ]

  pub fresh : List IndexChunk
  fresh = of_walk paths exclude max_file_size after c.walked_after

  pub build-old : build_index_filtered paths before exclude max_file_size ≡ old
  unfolding build_index_filtered
  build-old =
      ap
        (λ w. elim w [
          | none ↦ []
          | some walked ↦ of_walk paths exclude max_file_size before walked
        ])
        c.was

  pub build-fresh : build_index_filtered paths after exclude max_file_size ≡ fresh
  unfolding build_index_filtered fresh
  build-fresh =
      ap
        (λ w. elim w [ none ↦ [] | some walked ↦ of_walk paths exclude max_file_size after walked ])
        c.now

  -- Of the file itself the update leaves what it adds, and the building what the walk finds.
  pub update-itself :
      of_path r (without paths r old ++ added)
      ≡ (if after.is_ignored r (after.is_dir changed) then [] else own)
  update-itself =
      retain-append (λ k. text_eq k.path r) (without paths r old) added
      ∙ (ap (λ l. l ++ of_path r added) (of_path-without_same r old)
          ∙ (of_path-own r added added-Owned ∙ added-own))

  pub fresh-itself : of_path r fresh ≡ (if c.found then own else [])
  unfolding fresh
  fresh-itself =
      of_path-of_walk paths exclude max_file_size after r c.walked_after
      ∙ (ap (of_walk paths exclude max_file_size after) c.itself ∙ elim (Bool-cases c.found) [
        | inl found ↦ rw found (append-nil own)
        | inr lost ↦ rw lost refl
      ])

  pub update-others :
      (s : Text) → text_eq r s ≡ false → of_path s (without paths r old ++ added) ≡ of_path s fresh
  unfolding fresh
  update-others s ne =
      let keep : (k : IndexChunk) → text_eq k.path s ≡ true → not (text_eq k.path r) ≡ true =
        λ k same. ap not (text_eq-differs k.path r s same ne) in
      retain-append (λ k. text_eq k.path s) (without paths r old) added
      ∙ (ap (λ l. of_path s (without paths r old) ++ l) (of_path-other s r added ne added-Owned)
          ∙ (append-nil (of_path s (without paths r old))
              ∙ (retain-retain (λ k. text_eq k.path s) (λ k. not (text_eq k.path r)) old keep
                  ∙ (of_path-of_walk paths exclude max_file_size before s c.walked
                      ∙ (of_walk-same s c.walked ne
                          ∙ (ap (of_walk paths exclude max_file_size after) (others-same s ne)
                              ∙ sym (
                                  of_path-of_walk paths exclude max_file_size after s
                                    c.walked_after)))))))
