-- ===== src/Disasm/Labels.antt =====
-- disasm.rs: the labels of a listing, by what its lines lead to.
use mathlib.Core.List.{map}
use decomps_agent.Prelude.{
  ℕ, ◌≡◌, ◌∙◌, refl, ap, ap₂, inl, inr, arith, Bool, true, false, ◌&&◌, ◌||◌, ◌==◌, Bool-cases,
  List, [], ◌∷◌, Option, none, some,
}
use decomps_agent.Reach.Maps.{
  lookup, or_insert, Ascends, or_insert-Ascends, adjust-Ascends, lookup-or_insert, lookup-adjust,
  or_else, changed,
}
use decomps_agent.Disasm.{
  LabelKind, loc_label, sub_label, Line, label_target, label_targets, set_label, put_labels,
  apply_labels,
}

abbrev pub leads_to : ℕ → Option ℕ → Bool
leads_to a none = false
leads_to a (some t) = a == t

-- Some line leads to `a`; some `JSR` does.
unfoldable pub is_target : ℕ → List Line → Bool
is_target a [] = false
is_target a (l ∷ ls) = leads_to a l.target_num || is_target a ls

unfoldable pub is_called : ℕ → List Line → Bool
is_called a [] = false
is_called a (l ∷ ls) = (l.is_jsr && leads_to a l.target_num) || is_called a ls

-- The label for a place that is called, or led to, or neither.
abbrev pub label_by : Bool → Bool → Option LabelKind
label_by true _ = some sub_label
label_by false true = some loc_label
label_by false false = none

abbrev pub label_of : List Line → ℕ → Option LabelKind
label_of ls a = label_by (is_called a ls) (is_target a ls)

-- A label that there is, and what further lines add.
abbrev grown : Option LabelKind → Bool → Bool → Option LabelKind
grown old true _ = some sub_label
grown none false led = label_by false led
grown (some k) false led = some k

grown-grown :
    (old : Option LabelKind) (c t c' t' : Bool)
    → grown (grown old c t) c' t' ≡ grown old (c || c') (t || t')
grown-grown old true t true t' = refl
grown-grown old true t false t' = refl
grown-grown none false t true t' = refl
grown-grown (some k) false t true t' = refl
grown-grown none false true false t' = refl
grown-grown none false false false t' = refl
grown-grown (some k) false t false t' = refl

label_target-Ascends :
    (t : Option ℕ) (jsr : Bool) (labels : List (ℕ × LabelKind))
    → Ascends 0 labels
    → Ascends 0 (label_target t jsr labels)
label_target-Ascends none jsr labels a = a
label_target-Ascends (some t) false labels a =
    or_insert-Ascends t 0 loc_label labels (omega arith) a
label_target-Ascends (some t) true labels a =
    adjust-Ascends t 0 (λ k. sub_label) _ (or_insert-Ascends t 0 loc_label labels (omega arith) a)

inserted : (old : Option LabelKind) → or_else old loc_label ≡ grown old false true
inserted none = refl
inserted (some k) = refl

kept : (old : Option LabelKind) → old ≡ grown old false false
kept none = refl
kept (some k) = refl

called :
    (old : Option LabelKind) → changed (λ k. sub_label) (or_else old loc_label) ≡ some sub_label
called none = refl
called (some k) = refl

lookup-label_target :
    (a : ℕ) (t : Option ℕ) (jsr : Bool) (labels : List (ℕ × LabelKind))
    → Ascends 0 labels
    → lookup a (label_target t jsr labels)
      ≡ grown (lookup a labels) (jsr && leads_to a t) (leads_to a t)
lookup-label_target a none true labels h = kept (lookup a labels)
lookup-label_target a none false labels h = kept (lookup a labels)
lookup-label_target a (some t) false labels h = elim (Bool-cases (a == t)) [
  | inl here ↦ rw (lookup-or_insert a t 0 loc_label labels h, here) (inserted (lookup a labels))
  | inr there ↦ rw (lookup-or_insert a t 0 loc_label labels h, there) (kept (lookup a labels))
]
lookup-label_target a (some t) true labels h = elim (Bool-cases (a == t)) [
  | inl here ↦
      rw
        (
          lookup-adjust a t (λ k. sub_label) (or_insert t loc_label labels),
          lookup-or_insert a t 0 loc_label labels h,
          here,
        )
        (called (lookup a labels))
  | inr there ↦
      rw
        (
          lookup-adjust a t (λ k. sub_label) (or_insert t loc_label labels),
          lookup-or_insert a t 0 loc_label labels h,
          there,
        )
        (kept (lookup a labels))
]

lookup-label_targets :
    (a : ℕ) (ls : List Line) (labels : List (ℕ × LabelKind))
    → Ascends 0 labels
    → lookup a (label_targets ls labels) ≡ grown (lookup a labels) (is_called a ls) (is_target a ls)
unfolding label_targets is_called is_target
lookup-label_targets a [] labels h = kept (lookup a labels)
lookup-label_targets a (l ∷ ls) labels h =
    lookup-label_targets a ls (label_target l.target_num l.is_jsr labels)
      (label_target-Ascends l.target_num l.is_jsr labels h)
    ∙ ap (λ o. grown o (is_called a ls) (is_target a ls))
        (lookup-label_target a l.target_num l.is_jsr labels h)
    ∙ grown-grown (lookup a labels) (l.is_jsr && leads_to a l.target_num) (leads_to a l.target_num)
        (is_called a ls) (is_target a ls)

from_none : (c t : Bool) → grown none c t ≡ label_by c t
from_none true t = refl
from_none false t = refl

lookup-label_of : (a : ℕ) (ls : List Line) → lookup a (label_targets ls []) ≡ label_of ls a
unfolding lookup Ascends
lookup-label_of a ls = lookup-label_targets a ls [] tt ∙ from_none (is_called a ls) (is_target a ls)

put_labels-map :
    (all ls : List Line)
    → put_labels (label_targets all []) ls ≡ map (λ l. set_label (label_of all l.addr_num) l) ls
unfolding put_labels
put_labels-map all [] = refl
put_labels-map all (l ∷ ls) =
    ap₂ (λ k r. set_label k l ∷ r) (lookup-label_of l.addr_num all) (put_labels-map all ls)

-- Every line that some line leads to has a label, `sub` where a `JSR` leads there and `loc` where none
-- does; every other line is left as it is.
pub apply_labels-label_of :
    (ls : List Line) → apply_labels ls ≡ map (λ l. set_label (label_of ls l.addr_num) l) ls
unfolding apply_labels
apply_labels-label_of ls = put_labels-map ls ls
