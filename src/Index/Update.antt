-- ===== src/Index/Update.antt =====
-- The update of the index against its building anew (src/tools/index.rs).
use vexcoder.Prelude.{
  ◌≡◌, refl, sym, ap, subst, ◌∙◌, ◌⊎◌, inl, inr, ℕ, Bool, true, false, Bool-cases, List, [], ◌∷◌,
  is_empty, if◌then◌else◌, Text, text_eq, text_eq_iff,
}
use vexcoder.Index.Items.{IndexChunk}
use vexcoder.Index.Build.{
  Paths, Files, workspace_relative, walked_chunks, build_index_filtered, update_index_filtered,
}
use vexcoder.Index.Chunks.{of_path}
use vexcoder.Index.Change.{IsChange}
use vexcoder.Index.PerFile.{build-old, build-fresh, update-itself, fresh-itself, update-others}

-- What the update has for the path `s`: the same chunks as the building anew; or `s` is the changed
-- file, which has chunks, and just one of the walk and the ignore rules leaves it out.
abbrev pub Rebuilt :
    (paths : Paths) (after : Files paths) (changed : Paths.PathBuf paths)
    → Bool
    → List Text
    → ℕ
    → List IndexChunk
    → Text
    → Type 0
Rebuilt paths after changed found exclude max_file_size index s =
    let r = workspace_relative paths changed in
    let ignored = after.is_ignored r (after.is_dir changed) in
    let own = walked_chunks paths after exclude max_file_size changed in
    let fresh = build_index_filtered paths after exclude max_file_size in
    (of_path s index ≡ of_path s fresh)
    ⊎ ((s ≡ r)
        × (is_empty own ≡ false)
        × (found ≡ ignored)
        × (of_path s index ≡ (if ignored then [] else own))
        × (of_path s fresh ≡ (if found then own else [])))

-- Where the walk and the rules agree, or there is nothing to agree on, the chunks are the same.
settled :
    (r : Text) (found ignored : Bool) (made mine theirs : List IndexChunk)
    → mine ≡ (if ignored then [] else made)
    → theirs ≡ (if found then made else [])
    → (mine ≡ theirs)
      ⊎ ((r ≡ r)
          × (is_empty made ≡ false)
          × (found ≡ ignored)
          × (mine ≡ (if ignored then [] else made))
          × (theirs ≡ (if found then made else [])))
settled r true false made mine theirs m t = inl (m ∙ sym t)
settled r false true made mine theirs m t = inl (m ∙ sym t)
settled r true true [] mine theirs m t = inl (m ∙ sym t)
settled r true true (k ∷ ks) mine theirs m t = inr (refl, refl, refl, m, t)
settled r false false [] mine theirs m t = inl (m ∙ sym t)
settled r false false (k ∷ ks) mine theirs m t = inr (refl, refl, refl, m, t)

-- A file of the workspace has changed, been made or been removed, all others are as before, and the
-- walk over the files ends without an error both times. Then for every path the update of the index has the same chunks in the same order as an index
-- that is built anew, with the same exclusions and the same limit, with one exception: the changed
-- file itself, where it is readable, not excluded and has chunks, and the walk finds it though the
-- ignore rules leave it out, or misses it though they do not. There the update goes by the rules,
-- with none or all of the file's chunks, and the building goes by the walk.
pub update_index_filtered-Rebuilds :
    {paths : Paths} {before after : Files paths} {changed : Paths.PathBuf paths}
    (c : IsChange paths before after changed) (exclude : List Text) (max_file_size : ℕ) (s : Text)
    → Rebuilt paths after changed c.found exclude max_file_size
        (update_index_filtered paths
          (build_index_filtered paths before exclude max_file_size)
          changed
          after
          exclude
          max_file_size)
        s
unfolding update_index_filtered
update_index_filtered-Rebuilds {paths} {before} {after} {changed} c exclude max_file_size s =
    let index = build_index_filtered paths before exclude max_file_size in
    let update = update_index_filtered paths index changed after exclude max_file_size in
    let r = workspace_relative paths changed in
    let from_old = λ (t : Text).
      ap
        (λ index. of_path t (update_index_filtered paths index changed after exclude max_file_size))
        (build-old c exclude max_file_size) in
    let anew = λ (t : Text). ap (of_path t) (build-fresh c exclude max_file_size) in
    elim (Bool-cases (text_eq r s)) [
      | inr other ↦
          inl (from_old s ∙ (update-others c exclude max_file_size s other ∙ sym (anew s)))
      | inl same ↦
          subst (Rebuilt paths after changed c.found exclude max_file_size update)
            ((text_eq_iff r s).0 same)
            (settled r c.found (after.is_ignored r (after.is_dir changed)) _ _ _
              (from_old r ∙ update-itself c exclude max_file_size)
              (anew r ∙ fresh-itself c exclude max_file_size))
    ]
