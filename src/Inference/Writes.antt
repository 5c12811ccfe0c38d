-- ===== src/Inference/Writes.antt =====
-- The rows that ClassifyAspects fills (api/internal/inference/client.go), when every pair of a text
-- and an aspect has its own score `f`: the writes of the references, in any order that misses none.
use sentilyzer.Prelude.{
  ℕ, zero, suc, ◌+◌, ◌≡◌, refl, sym, ap, ◌∙◌, List, [], ◌∷◌, ◌++◌, map, length, set, get_or,
  replicate, ◌==◌, Str, Option, arith, inl, inr, length-map, length-replicate, length-append, true,
}
use sentilyzer.Prelude.Slices.{scatter, scatter-map}
use sentilyzer.Errors.{done}
use sentilyzer.Domain.{AspectScore}
use sentilyzer.Inference.Batch.{
  AspectInput, no_input, AspectRef, Group, refs, refs_of, refs_in, aspect_refs, length_order,
}
use sentilyzer.Inference.Groups.{all_refs, AllOf, AllUniform}
use sentilyzer.Inference.Classified.{elem-length_order}
use sentilyzer.Inference.Client.{
  PbScore, PbAspectScore, set_at, zero_aspect, proto_to_score, unpack_row, unpack_rows, aspect_at,
  group_input,
}
use sentilyzer.Prelude.Rows.{
  set-get_or, set-set, set-middle, get_or-middle, append-snoc, get_or-set_row, get_or-set_cases,
}

-- How many pairs a request holds.
abbrev pub pairs : List AspectInput → ℕ
pairs [] = 0
pairs (i ∷ is) = length i.aspects + pairs is

module _ {F : Type 0} (zero32 : F) (f : Str → Str → Option (PbScore F)) where
  -- The score of an aspect of an input, and the row of an input.
  abbrev pub cell_of : AspectInput → Str → AspectScore F
  cell_of i a = record { aspect = a; score = proto_to_score zero32 (f i.text a) }

  abbrev pub row_of : AspectInput → List (AspectScore F)
  row_of i = map (cell_of i) i.aspects

  module _ (items : List AspectInput) where
    abbrev pub item_at : ℕ → AspectInput
    item_at i = get_or items i no_input

    -- The writes of the references, each with its own score.
    unfoldable pub write_all :
        List AspectRef → List (List (AspectScore F)) → List (List (AspectScore F))
    unfolding set_at aspect_at
    write_all [] out = out
    write_all (r ∷ rs) out =
        write_all rs (set_at out r.item r.pos (cell_of (item_at r.item) (aspect_at items r)))

    pub write_all-append :
        (rs qs : List AspectRef) (out : List (List (AspectScore F)))
        → write_all (rs ++ qs) out ≡ write_all qs (write_all rs out)
    unfolding write_all
    write_all-append [] qs out = refl
    write_all-append (r ∷ rs) qs out =
        write_all-append rs qs
          (set_at out r.item r.pos (cell_of (item_at r.item) (aspect_at items r)))

    pub write-refs_of :
        (i : ℕ) (before rest : List Str) (pre old : List (AspectScore F))
        (out : List (List (AspectScore F)))
        → (item_at i).aspects ≡ before ++ rest
        → length pre ≡ length before
        → length old ≡ length rest
        → get_or out i [] ≡ pre ++ old
        → write_all (refs_of i (length before) rest) out
          ≡ set out i (pre ++ map (cell_of (item_at i)) rest)
    unfolding write_all refs_of set_at aspect_at
    write-refs_of i before [] pre [] out h p o g = sym (rw⁻¹ g (set-get_or out i []))
    write-refs_of i before [] pre (x ∷ old) out h p o g = absurd (omega (arith, o))
    write-refs_of i before (a ∷ rest) pre [] out h p o g = absurd (omega (arith, o))
    write-refs_of i before (a ∷ rest) pre (x ∷ old) out h p o g =
        let item = item_at i in
        let c = cell_of item a in
        let e : aspect_at items (record { item = i; pos = length before }) ≡ a =
          rw h (get_or-middle before a rest []) in
        let written : set (get_or out i []) (length before) c ≡ (pre ++ c ∷ []) ++ old =
          rw (g, sym p, set-middle pre x old c) (sym (append-snoc pre c old)) in
        let next =
          write-refs_of i (before ++ a ∷ []) rest (pre ++ c ∷ []) old
            (set out i ((pre ++ c ∷ []) ++ old)) (h ∙ sym (append-snoc before a rest))
            (omega (arith, length-append pre (c ∷ []), length-append before (a ∷ []), p))
            (omega (arith, o)) (get_or-set_row out i x old ((pre ++ c ∷ []) ++ old) pre g) in
        let size : length before + 1 ≡ length (before ++ a ∷ []) =
          omega (arith, length-append before (a ∷ [])) in
        ap
          (λ b.
            write_all (refs_of i (length before + 1) rest)
              (set_at out i (length before) (cell_of item b)))
          e
        ∙ (ap (λ row. write_all (refs_of i (length before + 1) rest) (set out i row)) written
            ∙ (ap (λ n. write_all (refs_of i n rest) (set out i ((pre ++ c ∷ []) ++ old))) size
                ∙ (next
                    ∙ (set-set out i _ _
                        ∙ ap (set out i) (append-snoc pre c (map (cell_of item) rest))))))

    pub write-refs_in :
        (order : List ℕ) (out : List (List (AspectScore F)))
        → ((i : ℕ) → length (get_or out i []) ≡ length (item_at i).aspects)
        → write_all (refs_in items order) out ≡ scatter order (λ i. row_of (item_at i)) out
    unfolding write_all refs_in scatter
    write-refs_in [] out fits = refl
    write-refs_in (i ∷ order) out fits =
        let aspects = (item_at i).aspects in
        let own = write-refs_of i [] aspects [] (get_or out i []) out refl refl (fits i) refl in
        write_all-append (refs_of i 0 aspects) (refs_in items order) out
        ∙ (ap (write_all (refs_in items order)) own
            ∙ write-refs_in order (set out i (row_of (item_at i))) (λ j.
              elim (get_or-set_cases out i j (row_of (item_at i))) [
                | inl same ↦ ap length same ∙ fits j
                | inr (e, new) ↦
                    ap length new
                    ∙ (length-map (item_at i).aspects (cell_of (item_at i))
                        ∙ ap (λ n. length (item_at n).aspects) e)
              ]))

    -- The pairs of a request that is made of groups.
    pub pairs-groups : (gs : List Group) → pairs (map (group_input items) gs) ≡ length (all_refs gs)
    unfolding group_input
    pairs-groups [] = refl
    pairs-groups (g ∷ gs) = omega (
      arith,
      pairs-groups gs,
      length-append (refs g) (all_refs gs),
      length-map (refs g) (aspect_at items),
    )

    -- The scores that the worker returns for some aspects of an item.
    abbrev pub reply : AspectInput → List (PbAspectScore F)
    reply i = map (λ a. record { aspect = a; score = f i.text a }) i.aspects

    pub unpack-write :
        (i : ℕ) (rs : List AspectRef) (out : List (List (AspectScore F)))
        → AllOf i rs
        → unpack_row zero32 rs
            (reply (record { text = (item_at i).text; aspects = map (aspect_at items) rs }))
            out
          ≡ write_all rs out
    unfolding unpack_row write_all
    unpack-write i [] out u = refl
    unpack-write i (r ∷ rs) out (e, u) =
        unpack-write i rs _ u
        ∙ ap (λ n. write_all rs (set_at out r.item r.pos (cell_of (item_at n) (aspect_at items r))))
            (sym e)

    pub rows-write :
        (gs : List Group) (out : List (List (AspectScore F)))
        → AllUniform gs
        → unpack_rows zero32 gs (map reply (map (group_input items) gs)) out
          ≡ done (write_all (all_refs gs) out)
    unfolding unpack_rows group_input write_all
    rows-write [] out u = refl
    rows-write (g ∷ gs) out (u, us) =
        let input = group_input items g in
        let size : (length (reply input) == length (refs g)) ≡ true = ground (
          arith,
          length-map {B = PbAspectScore F} input.aspects
              (λ a. record { aspect = a; score = f input.text a }),
          length-map (refs g) (aspect_at items),
        ) in
        rw (size) (
          ap (unpack_rows zero32 gs (map reply (map (group_input items) gs)))
            (unpack-write g.0.item (refs g) out u)
          ∙ (rows-write gs (write_all (refs g) out) us
              ∙ ap done (sym (write_all-append (refs g) (all_refs gs) out))))

    -- The empty rows that the client starts from.
    unfoldable pub blank : List (List (AspectScore F))
    blank = map (λ (i : AspectInput). replicate (length i.aspects) (zero_aspect zero32)) items

    blank-fits :
        (its : List AspectInput) (i : ℕ)
        → length (
            get_or
              (map (λ (j : AspectInput). replicate (length j.aspects) (zero_aspect zero32)) its)
              i
              [])
          ≡ length (get_or its i no_input).aspects
    blank-fits [] i = refl
    blank-fits (it ∷ its) zero = length-replicate (length it.aspects) (zero_aspect zero32)
    blank-fits (it ∷ its) (suc i) = blank-fits its i

    pub write-blank : write_all (aspect_refs items) blank ≡ map row_of items
    unfolding aspect_refs blank
    write-blank =
        let texts = map (λ (i : AspectInput). i.text) items in
        let n = length-map items (λ (i : AspectInput). i.text) in
        write-refs_in (length_order texts) blank (blank-fits items)
        ∙ scatter-map row_of no_input (length_order texts) items blank
            (λ j h. elem-length_order texts j (omega (arith, n))) (length-map items _)
