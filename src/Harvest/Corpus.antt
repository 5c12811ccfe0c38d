-- ===== src/Harvest/Corpus.antt =====
-- api/internal/harvest/corpus.go: the rows, and the text that the content hash is taken of. SHA-256 in
-- hexadecimal is the parameter `hash`, and unicode.ToLower on one rune `lower`.
pub mod Normal
use sentilyzer.Prelude.{ℕ, List, [], ◌∷◌, ◌++◌, Str, if◌then◌else◌}
use sentilyzer.Prelude.Text.{codes, is_empty, is_space, join, to_lower}

abbrev pub hash_version : ℕ
hash_version = 1

pub record Document : Type 0 where
  pub platform : Str
  pub doc_id : Str
  pub author_did : Str
  pub author : Str
  pub text : Str
  pub langs : List Str
  pub created_at : Str
  pub harvested_at : Str
  pub content_sha : Str
  pub hash_version : ℕ

-- strings.Fields, with the word read so far
unfoldable pub fields_loop : Str → Str → List Str
fields_loop word [] = if is_empty word then [] else word ∷ []
fields_loop word (c ∷ s) =
    let next = fields_loop [] s in
    let more = fields_loop (word ++ c ∷ []) s in
    if is_space c then (if is_empty word then next else word ∷ next) else more

unfoldable pub fields : Str → List Str
unfolding fields_loop
fields s = fields_loop [] s

module _ (lower : ℕ → ℕ) where
  unfoldable pub normalize : Str → Str
  unfolding fields join
  normalize text = to_lower lower (join (codes " ") (fields text))

  unfoldable pub content_sha256 : (Str → Str) → Str → Str
  unfolding normalize
  content_sha256 hash text = hash (normalize text)

  -- what WriteDocument fills in, at the instant that formats as `at`
  unfoldable pub stamp : (Str → Str) → Str → Document → Document
  unfolding content_sha256
  stamp hash at d = record d {
    harvested_at = at;
    content_sha = content_sha256 hash d.text;
    hash_version = hash_version;
  }
