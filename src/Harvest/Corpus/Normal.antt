-- ===== src/Harvest/Corpus/Normal.antt =====
-- The normal form of a text (api/internal/harvest/corpus.go, Normalize).
use sentilyzer.Prelude.{
  ℕ, ◌≡◌, refl, sym, ap, ◌∙◌, false, List, [], ◌∷◌, ◌++◌, map, Str, inl, inr, Bool-cases,
  append-nil, append_assoc, map-append, ◌↔◌, if◌then◌else◌,
}
use sentilyzer.Prelude.Rows.{append-snoc}
use sentilyzer.Prelude.Text.{codes, is_empty, is_space, join, to_lower}
use sentilyzer.Harvest.Corpus.{fields_loop, fields, normalize, content_sha256}

abbrev pub LacksSpace : Str → Type 0
LacksSpace [] = Unit
LacksSpace (c ∷ s) = (is_space c ≡ false) × LacksSpace s

-- Words that are not empty and hold no space.
abbrev pub AllWords : List Str → Type 0
AllWords [] = Unit
AllWords (w ∷ ws) = ((is_empty w ≡ false) × LacksSpace w) × AllWords ws

LacksSpace-snoc : (w : Str) (c : ℕ) → LacksSpace w → is_space c ≡ false → LacksSpace (w ++ c ∷ [])
LacksSpace-snoc [] c l h = (h, tt)
LacksSpace-snoc (d ∷ w) c (k, l) h = (k, LacksSpace-snoc w c l h)

fields_loop-AllWords : (w s : Str) → LacksSpace w → AllWords (fields_loop w s)
unfolding fields_loop
fields_loop-AllWords w [] l = elim (Bool-cases (is_empty w)) [
  | inl none' ↦ rw none' tt
  | inr some' ↦ rw some' ((some', l), tt)
]
fields_loop-AllWords w (c ∷ s) l = elim (Bool-cases (is_space c)) [
  | inr letter ↦ rw letter (fields_loop-AllWords (w ++ c ∷ []) s (LacksSpace-snoc w c l letter))
  | inl space ↦ elim (Bool-cases (is_empty w)) [
    | inl none' ↦ rw (space, none') (fields_loop-AllWords [] s tt)
    | inr some' ↦ rw (space, some') ((some', l), fields_loop-AllWords [] s tt)
  ]
]

-- A word is read to its end.
fields_loop-word : (w u s : Str) → LacksSpace u → fields_loop w (u ++ s) ≡ fields_loop (w ++ u) s
unfolding fields_loop
fields_loop-word w [] s l = ap (λ x. fields_loop x s) (sym (append-nil w))
fields_loop-word w (c ∷ u) s (h, l) =
    rw h (fields_loop-word (w ++ c ∷ []) u s l ∙ ap (λ x. fields_loop x s) (append-snoc w c u))

-- The words of a text that was joined from words.
fields-join : (ws : List Str) → AllWords ws → fields (join (codes " ") ws) ≡ ws
unfolding fields fields_loop join is_space
fields-join [] l = refl
fields-join (w ∷ []) ((h, l), tt) =
    ap fields (sym (append-nil w)) ∙ (fields_loop-word [] w [] l ∙ rw h refl)
fields-join (w ∷ v ∷ ws) ((h, l), ls) =
    fields_loop-word [] w (codes " " ++ join (codes " ") (v ∷ ws)) l
    ∙ rw h (ap (λ r. w ∷ r) (fields-join (v ∷ ws) ls))

-- The characters that are not spaces.
abbrev pub letters : Str → Str
letters [] = []
letters (c ∷ s) = if is_space c then letters s else c ∷ letters s

abbrev pub concat_words : List Str → Str
concat_words [] = []
concat_words (w ∷ ws) = w ++ concat_words ws

-- The words hold all the letters, in order.
concat_words-fields_loop : (w s : Str) → concat_words (fields_loop w s) ≡ w ++ letters s
unfolding fields_loop
concat_words-fields_loop [] [] = refl
concat_words-fields_loop (d ∷ w) [] = refl
concat_words-fields_loop [] (c ∷ s) = elim (Bool-cases (is_space c)) [
  | inl space ↦ rw space (concat_words-fields_loop [] s)
  | inr letter ↦ rw letter (concat_words-fields_loop (c ∷ []) s)
]
concat_words-fields_loop (d ∷ w) (c ∷ s) = elim (Bool-cases (is_space c)) [
  | inl space ↦ rw space (ap (λ r. d ∷ (w ++ r)) (concat_words-fields_loop [] s))
  | inr letter ↦ rw letter (
      concat_words-fields_loop (d ∷ (w ++ c ∷ [])) s
      ∙ ap (λ r. d ∷ r) (append_assoc w (c ∷ []) (letters s)))
]

module _ (lower : ℕ → ℕ) (lower-lower : (c : ℕ) → lower (lower c) ≡ lower c)
    (lower_space : lower b' ' ≡ b' ')
    (is_space-lower : (c : ℕ) → is_space (lower c) ≡ is_space c) where
  LacksSpace-lower : (w : Str) → LacksSpace w → LacksSpace (to_lower lower w)
  LacksSpace-lower [] l = tt
  LacksSpace-lower (c ∷ w) (h, l) = (is_space-lower c ∙ h, LacksSpace-lower w l)

  AllWords-lower : (ws : List Str) → AllWords ws → AllWords (map (to_lower lower) ws)
  AllWords-lower [] l = tt
  AllWords-lower ([] ∷ ws) ((h, l), ls) = cc
  AllWords-lower ((c ∷ w) ∷ ws) ((h, l), ls) =
      ((refl, LacksSpace-lower (c ∷ w) l), AllWords-lower ws ls)

  join-lower :
      (ws : List Str)
      → to_lower lower (join (codes " ") ws) ≡ join (codes " ") (map (to_lower lower) ws)
  unfolding join
  join-lower [] = refl
  join-lower (w ∷ []) = refl
  join-lower (w ∷ v ∷ ws) =
      map-append lower w (codes " " ++ join (codes " ") (v ∷ ws))
      ∙ rw (lower_space, join-lower (v ∷ ws)) refl

  lower-twice : (w : Str) → to_lower lower (to_lower lower w) ≡ to_lower lower w
  lower-twice [] = refl
  lower-twice (c ∷ w) = rw (lower-lower c, lower-twice w) refl

  words_of : (text : Str) → AllWords (fields text)
  words_of text = unfold fields in fields_loop-AllWords [] text tt

  normalize-words :
      (text : Str) → normalize lower text ≡ join (codes " ") (map (to_lower lower) (fields text))
  unfolding normalize
  normalize-words text = join-lower (fields text)

  -- The words of the normal form.
  fields-normalize :
      (text : Str) → fields (normalize lower text) ≡ map (to_lower lower) (fields text)
  fields-normalize text =
      ap fields (normalize-words text)
      ∙ fields-join (map (to_lower lower) (fields text))
          (AllWords-lower (fields text) (words_of text))

  normalize-normalize : (text : Str) → normalize lower (normalize lower text) ≡ normalize lower text
  unfolding normalize
  normalize-normalize text =
      ap (λ ws. to_lower lower (join (codes " ") ws)) (fields-normalize text)
      ∙ (ap (to_lower lower) (sym (normalize-words text))
          ∙ lower-twice (join (codes " ") (fields text)))

  -- Where lowering a rune twice is lowering it once, and keeps the space and what is a space: two texts have the same
  -- normal form just if they have the same words in lower case. The normal form is those words with one space between two;
  -- the words are not empty, hold no space, and hold all the other characters in order; and words with one space
  -- between two are read back as they are. A text in normal form has the content hash of the text that it comes from.
  pub normalize_lem :
      (hash : Str → Str) (s t : Str)
      → (normalize lower s ≡ normalize lower t
          ↔ map (to_lower lower) (fields s) ≡ map (to_lower lower) (fields t))
        × (normalize lower s ≡ join (codes " ") (map (to_lower lower) (fields s)))
        × AllWords (fields s)
        × (concat_words (fields s) ≡ letters s)
        × ((ws : List Str) → AllWords ws → fields (join (codes " ") ws) ≡ ws)
        × (content_sha256 lower hash (normalize lower s) ≡ content_sha256 lower hash s)
  unfolding content_sha256
  normalize_lem hash s t = (
    (
      λ h. sym (fields-normalize s) ∙ (ap fields h ∙ fields-normalize t),
      λ h. normalize-words s ∙ (ap (join (codes " ")) h ∙ sym (normalize-words t)),
    ),
    normalize-words s,
    words_of s,
    (unfold fields in concat_words-fields_loop [] s),
    fields-join,
    ap hash (normalize-normalize s),
  )
