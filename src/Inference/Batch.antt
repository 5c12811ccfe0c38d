-- ===== src/Inference/Batch.antt =====
-- api/internal/inference/batch.go: how requests are cut into batches that the worker accepts.
-- Indices and counts are `int`s that stay below the number of texts and aspects in memory.
use sentilyzer.Prelude.{
  ℕ, zero, suc, ◌+◌, min, List, [], ◌∷◌, ◌++◌, map, length, get_or, ltb, ◌==◌, if◌then◌else◌, Str,
}
use sentilyzer.Prelude.Text.{byte_len}
use sentilyzer.Prelude.Sort.{sort}
use sentilyzer.Prelude.Slices.{range_from}

abbrev pub default_max_batch : ℕ
default_max_batch = 32

abbrev pub aspect_batch_multiple : ℕ
aspect_batch_multiple = 4

-- AspectInput of client.go
pub record AspectInput : Type 0 where
  pub text : Str
  pub aspects : List Str

unfoldable pub len_at : List Str → ℕ → ℕ
len_at texts i = byte_len (get_or texts i [])

unfoldable pub length_order : List Str → List ℕ
unfolding sort range_from len_at
length_order texts =
    sort (λ a b. ltb (len_at texts a) (len_at texts b)) (range_from 0 (length texts))

-- the loop `for start := 0; start < n; start += max`
unfoldable pub ranges_from : ℕ → ℕ → ℕ → ℕ → List (ℕ × ℕ)
ranges_from zero n max start = []
ranges_from (suc fuel) n max start =
    let rest = ranges_from fuel n max (start + max) in
    if ltb start n then (start, min (start + max) n) ∷ rest else []

-- Each round advances by at least one, so `n` rounds are enough.
unfoldable pub chunk_ranges : ℕ → ℕ → List (ℕ × ℕ)
unfolding ranges_from
chunk_ranges n max = ranges_from n n (if ltb max 1 then 1 else max) 0

pub record AspectRef : Type 0 where
  pub item : ℕ
  pub pos : ℕ

abbrev pub no_input : AspectInput
no_input = record { text = []; aspects = [] }

-- `for p := range items[i].Aspects`
unfoldable pub refs_of : ℕ → ℕ → List Str → List AspectRef
refs_of i p [] = []
refs_of i p (a ∷ rest) = record { item = i; pos = p } ∷ refs_of i (p + 1) rest

unfoldable pub refs_in : List AspectInput → List ℕ → List AspectRef
unfolding refs_of
refs_in items [] = []
refs_in items (i ∷ is) = refs_of i 0 (get_or items i no_input).aspects ++ refs_in items is

unfoldable pub aspect_refs : List AspectInput → List AspectRef
unfolding refs_in length_order
aspect_refs items = refs_in items (length_order (map (λ it. it.text) items))

-- A group is its first reference and the others.
abbrev pub Group : Type 0
Group = AspectRef × List AspectRef

abbrev pub refs : Group → List AspectRef
refs (r, rs) = r ∷ rs

-- `groups` in reverse: the last group, which an append extends, stands in front.
unfoldable pub push_ref : AspectRef → List Group → List Group
push_ref r [] = (r, []) ∷ []
push_ref r ((first, rest) ∷ groups) =
    if first.item == r.item
    then (first, rest ++ r ∷ []) ∷ groups
    else (r, []) ∷ (first, rest) ∷ groups

unfoldable pub group_loop : List AspectRef → List Group → List Group
unfolding push_ref
group_loop [] groups = groups
group_loop (r ∷ rs) groups = group_loop rs (push_ref r groups)

unfoldable pub reverse_onto : List Group → List Group → List Group
reverse_onto [] out = out
reverse_onto (g ∷ gs) out = reverse_onto gs (g ∷ out)

unfoldable pub group_by_item : List AspectRef → List Group
unfolding group_loop reverse_onto
group_by_item rs = reverse_onto (group_loop rs []) []
