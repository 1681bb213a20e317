-- ===== src/Activity/Labels.antt =====
-- The labels of tool calls in `RecordEvent` of internal/app/activity.go.
pub mod Calls
use trello_openclaw_webhook.Prelude.{
  ◌≡◌, refl, ◌∙◌, Bool, true, false, Option, none, some, List, [], ◌∷◌, ◌++◌, Str, bytes, ◌==◌,
  if◌then◌else◌, lookup, has_prefix, contains_str, arith,
}
use mathlib.Core.Path.{subst}
use trello_openclaw_webhook.Activity.Tracker
use trello_openclaw_webhook.Activity.Record.{or_else, sub_tag, start_label, complete_label}

has_prefix-append : (p s : Str) → has_prefix (p ++ s) p ≡ true
unfolding has_prefix
has_prefix-append [] s = ground arith
has_prefix-append (c ∷ p) s = ground (arith, has_prefix-append p s)

contains_str-prefix : (s p : Str) → has_prefix s p ≡ true → contains_str s p ≡ true
unfolding contains_str
contains_str-prefix [] p h = ground arith
contains_str-prefix (c ∷ s) p h = ground arith

contains_str-append : (s p rest : Str) → contains_str (s ++ (p ++ rest)) p ≡ true
unfolding contains_str
contains_str-append [] p rest = contains_str-prefix (p ++ rest) p (has_prefix-append p rest)
contains_str-append (c ∷ s) p rest = ground (arith, contains_str-append s p rest)

if_true : (b : Bool) (x y : Str) → b ≡ true → (if b then x else y) ≡ x
if_true true x y e = refl
if_true false x y e = absurd (ground arith)

tagged_lem :
    (tool rest tag : Str)
    → bytes "[sub:" ++ rest ≡ tag
    → contains_str (tool ++ tag) (bytes "[sub:") ≡ true
tagged_lem tool rest tag e =
    subst (λ x. contains_str (tool ++ x) (bytes "[sub:") ≡ true) e
      (contains_str-append tool (bytes "[sub:") rest)

sub_tag_lem :
    (names : List (Str × Str)) (parent : Str)
    → bytes "[sub:" ++ (or_else (bytes "?") (lookup parent names) ++ bytes "]")
      ≡ sub_tag names parent
unfolding sub_tag
sub_tag_lem names parent = refl

-- A call that was labelled with its parent keeps that label.
pub complete_label-start_label :
    (names later : List (Str × Str)) (tool : Str) (parent : Option Str)
    → complete_label later (start_label names tool parent) parent ≡ start_label names tool parent
unfolding complete_label start_label sub_tag
complete_label-start_label names later tool none = refl
complete_label-start_label names later tool (some parent) =
    let tagged : contains_str (tool ++ sub_tag names parent) (bytes "[sub:") ≡ true =
      tagged_lem tool (or_else (bytes "?") (lookup parent names) ++ bytes "]")
        (sub_tag names parent) (sub_tag_lem names parent) in
    if_true _ _ _ tagged

-- The tool's name, and for a subagent's call the tag with the subagent's name.
abbrev pub labelled : List (Str × Str) → (tool : Str) → (parent : Option Str) → Str
labelled names tool none = tool
labelled names tool (some parent) =
    tool ++ (bytes "[sub:" ++ or_else (bytes "?") (lookup parent names) ++ bytes "]")

pub labelled-start_label :
    (names : List (Str × Str)) (tool : Str) (parent : Option Str)
    → start_label names tool parent ≡ labelled names tool parent
unfolding start_label sub_tag
labelled-start_label names tool none = refl
labelled-start_label names tool (some parent) = refl
