-- ===== src/Inference/Groups.antt =====
-- The groups of api/internal/inference/batch.go: groupByItem loses no reference and keeps the order,
-- and a group is of one item.
use sentilyzer.Prelude.{
  ℕ, ◌≡◌, refl, sym, ap, ◌∙◌, List, [], ◌∷◌, ◌++◌, append-nil, append_assoc, Bool-cases, inl, inr,
  arith, ◌==◌,
}
use sentilyzer.Inference.Batch.{
  AspectRef, Group, refs, push_ref, group_loop, reverse_onto, group_by_item,
}

-- The references of the groups, in order.
abbrev pub all_refs : List Group → List AspectRef
all_refs [] = []
all_refs (g ∷ gs) = refs g ++ all_refs gs

-- Every reference is of the item.
abbrev pub AllOf : ℕ → List AspectRef → Type 0
AllOf i [] = Unit
AllOf i (r ∷ rs) = (r.item ≡ i) × AllOf i rs

abbrev pub AllUniform : List Group → Type 0
AllUniform [] = Unit
AllUniform (g ∷ gs) = AllOf g.0.item (refs g) × AllUniform gs

-- The groups in reverse, and the references that they stand for.
abbrev back_refs : List Group → List AspectRef
back_refs [] = []
back_refs (g ∷ gs) = back_refs gs ++ refs g

all_refs-reverse_onto :
    (gs out : List Group) → all_refs (reverse_onto gs out) ≡ back_refs gs ++ all_refs out
unfolding reverse_onto
all_refs-reverse_onto [] out = refl
all_refs-reverse_onto (g ∷ gs) out =
    all_refs-reverse_onto gs (g ∷ out) ∙ sym (append_assoc (back_refs gs) (refs g) (all_refs out))

back_refs-push_ref :
    (r : AspectRef) (gs : List Group) → back_refs (push_ref r gs) ≡ back_refs gs ++ r ∷ []
unfolding push_ref
back_refs-push_ref r [] = refl
back_refs-push_ref r ((first, rest) ∷ gs) = elim (Bool-cases (first.item == r.item)) [
  | inl same ↦ rw same (sym (append_assoc (back_refs gs) (first ∷ rest) (r ∷ [])))
  | inr other ↦ rw other refl
]

back_refs-group_loop :
    (rs : List AspectRef) (gs : List Group) → back_refs (group_loop rs gs) ≡ back_refs gs ++ rs
unfolding group_loop
back_refs-group_loop [] gs = sym (append-nil (back_refs gs))
back_refs-group_loop (r ∷ rs) gs =
    back_refs-group_loop rs (push_ref r gs)
    ∙ (ap (λ x. x ++ rs) (back_refs-push_ref r gs) ∙ append_assoc (back_refs gs) (r ∷ []) rs)

AllOf-snoc :
    (i : ℕ) (rs : List AspectRef) (r : AspectRef) → AllOf i rs → r.item ≡ i → AllOf i (rs ++ r ∷ [])
AllOf-snoc i [] r h e = (e, tt)
AllOf-snoc i (x ∷ rs) r (e', h) e = (e', AllOf-snoc i rs r h e)

push_ref-AllUniform : (r : AspectRef) (gs : List Group) → AllUniform gs → AllUniform (push_ref r gs)
unfolding push_ref
push_ref-AllUniform r [] u = ((refl, tt), tt)
push_ref-AllUniform r ((first, rest) ∷ gs) (u, us) = elim (Bool-cases (first.item == r.item)) [
  | inl same ↦ rw same (AllOf-snoc first.item (first ∷ rest) r u (ground (arith, same)), us)
  | inr other ↦ rw other ((refl, tt), (u, us))
]

group_loop-AllUniform :
    (rs : List AspectRef) (gs : List Group) → AllUniform gs → AllUniform (group_loop rs gs)
unfolding group_loop
group_loop-AllUniform [] gs u = u
group_loop-AllUniform (r ∷ rs) gs u =
    group_loop-AllUniform rs (push_ref r gs) (push_ref-AllUniform r gs u)

reverse_onto-AllUniform :
    (gs out : List Group) → AllUniform gs → AllUniform out → AllUniform (reverse_onto gs out)
unfolding reverse_onto
reverse_onto-AllUniform [] out u v = v
reverse_onto-AllUniform (g ∷ gs) out (u, us) v = reverse_onto-AllUniform gs (g ∷ out) us (u, v)

-- The groups hold the references in their order, each once, and every group is of one item.
pub group_by_item_lem :
    (rs : List AspectRef) → (all_refs (group_by_item rs) ≡ rs) × AllUniform (group_by_item rs)
unfolding group_by_item
group_by_item_lem rs = (
  all_refs-reverse_onto (group_loop rs []) []
      ∙ (append-nil (back_refs (group_loop rs [])) ∙ back_refs-group_loop rs []),
  reverse_onto-AllUniform (group_loop rs []) [] (group_loop-AllUniform rs [] tt) tt,
)
