-- ===== src/Scheduler/Constraints/Labels.antt =====
-- What a label constraint means.

use swarmlite.Base.{
  ◌≡◌, refl, ap, ap₂, ◌∙◌, some, none, ◌++◌, not, arith, Str, codes, str_eq, all, is_some_and,
}
use swarmlite.Base.Map.{get}
use swarmlite.Base.Scan.{split_once, trim, is_whitespace}
use swarmlite.Base.Split.{
  Free, NoSpace, all-append, split_once-none, split_once-first, trim-NoSpace,
}
use swarmlite.Cluster.{NodeRecord}
use swarmlite.Scheduler.Constraints.{constraint_actual, option_str_eq, matches_constraint}

-- A text that a constraint can name: no `!` or `=`, and no white space.
pub record IsPlain (s : Str) : Type 0 where
  pub bang : Free b'!' s
  pub equals : Free b'=' s
  pub space : NoSpace s

IsPlain-append : (s t : Str) → IsPlain s → IsPlain t → IsPlain (s ++ t)
IsPlain-append s t h k = record {
  bang = all-append _ s t h.bang k.bang;
  equals = all-append _ s t h.equals k.equals;
  space = all-append _ s t h.space k.space;
}

abbrev pub label_prefix : Str
label_prefix = codes "node.labels."

label_prefix-IsPlain : IsPlain label_prefix
unfolding all is_whitespace
label_prefix-IsPlain = record { bang = refl; equals = refl; space = refl }

-- The left side of a label constraint names the value of the label.
constraint_actual-label :
    (node : NodeRecord) (label : Str)
    → constraint_actual node (label_prefix ++ label) ≡ get node.labels label
unfolding constraint_actual str_eq
constraint_actual-label node label = refl

matches_equals :
    (node : NodeRecord) (c l r : Str)
    → split_once (codes "!=") c ≡ none
    → split_once (codes "==") c ≡ some (l, r)
    → matches_constraint node c ≡ option_str_eq (constraint_actual node (trim l)) (trim r)
unfolding matches_constraint
matches_equals node c l r h k = ground arith

matches_differs :
    (node : NodeRecord) (c l r : Str)
    → split_once (codes "!=") c ≡ some (l, r)
    → matches_constraint node c ≡ not (option_str_eq (constraint_actual node (trim l)) (trim r))
unfolding matches_constraint
matches_differs node c l r h = ground arith

no_bang-equals : (s t : Str) → Free b'!' s → Free b'!' t → Free b'!' (s ++ (codes "==" ++ t))
unfolding all
no_bang-equals s t h k = all-append _ s (codes "==" ++ t) h (all-append _ (codes "==") t refl k)

-- `node.labels.L == V` holds on a node exactly when the label has the value, and `!=` exactly when
-- it does not, also where the node lacks the label; with plain texts and any spaces left out.
pub matches_constraint-label :
    (node : NodeRecord) (label value : Str)
    → IsPlain label
    → IsPlain value
    → (matches_constraint node ((label_prefix ++ label) ++ (codes "==" ++ value))
        ≡ is_some_and (get node.labels label) (λ v. str_eq v value))
      × (matches_constraint node ((label_prefix ++ label) ++ (codes "!=" ++ value))
          ≡ not (is_some_and (get node.labels label) (λ v. str_eq v value)))
unfolding option_str_eq
matches_constraint-label node label value pl pv =
    let left = label_prefix ++ label in
    let pleft = IsPlain-append label_prefix label label_prefix-IsPlain pl in
    let tl = trim-NoSpace left pleft.space in
    let tv = trim-NoSpace value pv.space in
    let actual = constraint_actual-label node label in
    let no_bang = no_bang-equals left value pleft.bang pv.bang in
    let e = (λ (a b : Str). option_str_eq (constraint_actual node a) b) in
    let shown = ap₂ e tl tv ∙ ap (λ o. option_str_eq o value) actual in
    (
      matches_equals node (left ++ (codes "==" ++ value)) left value
            (split_once-none b'!' (codes "=") (left ++ (codes "==" ++ value)) no_bang)
            (split_once-first b'=' (codes "=") left value pleft.equals)
          ∙ shown,
      matches_differs node (left ++ (codes "!=" ++ value)) left value
            (split_once-first b'!' (codes "=") left value pleft.bang)
          ∙ ap not shown,
    )
