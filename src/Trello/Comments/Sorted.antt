-- ===== src/Trello/Comments/Sorted.antt =====
-- The result of `ListCommentsSince` of internal/app/trelloclient/client.go.
use mathlib.Core.List.{Perm, perm_middle, reverse_perm, reverse-cons}
use mathlib.Core.List.Perm
use trello_openclaw_webhook.Prelude.{
  ℕ, ◌≤◌, ◌<◌, ◌≡◌, ◌≢◌, ap, true, Option, none, some, List, [], ◌∷◌, ◌++◌, Str, inl, inr, ltb,
  reverse, arith, append-nil, All, All-append, Bool-cases, eq_false,
}
use trello_openclaw_webhook.Trello.{Comment, Answer}
use trello_openclaw_webhook.Trello.Comments.{
  Decoder, fetch_comment_actions, newer, move_back, sort_from, sort_newer, list_comments_since,
}

-- Oldest first.
abbrev pub IsAscending : List Comment → Type 0
IsAscending [] = Unit
IsAscending (a ∷ all) = All (λ (b : Comment). a.at ≤ b.at) all × IsAscending all

abbrev IsDescending : List Comment → Type 0
IsDescending [] = Unit
IsDescending (a ∷ all) = All (λ (b : Comment). b.at ≤ a.at) all × IsDescending all

move_back-perm : (a : Comment) (sorted : List Comment) → Perm (move_back a sorted) (a ∷ sorted)
unfolding move_back
move_back-perm a [] = Perm.rfl
move_back-perm a (b ∷ sorted) = elim (Bool-cases (ltb a.at b.at)) [
  | inl earlier ↦
      rw earlier (Perm.trans (Perm.cons b (move_back-perm a sorted)) (Perm.swap a b sorted))
  | inr later ↦ rw later Perm.rfl
]

move_back-All :
    (P : Comment → Type 0) (a : Comment) (sorted : List Comment)
    → P a
    → All P sorted
    → All P (move_back a sorted)
unfolding move_back
move_back-All P a [] h all = (h, tt)
move_back-All P a (b ∷ sorted) h all = elim (Bool-cases (ltb a.at b.at)) [
  | inl earlier ↦ rw earlier (all.0, move_back-All P a sorted h all.1)
  | inr later ↦ rw later (h, all)
]

below :
    (a b : ℕ) (sorted : List Comment)
    → b ≤ a
    → All (λ (c : Comment). c.at ≤ b) sorted
    → All (λ (c : Comment). c.at ≤ a) sorted
below a b [] h all = tt
below a b (c ∷ sorted) h all = (omega (arith, all.0), below a b sorted h all.1)

move_back-IsDescending :
    (a : Comment) (sorted : List Comment) → IsDescending sorted → IsDescending (move_back a sorted)
unfolding move_back
move_back-IsDescending a [] h = (tt, tt)
move_back-IsDescending a (b ∷ sorted) h = elim (Bool-cases (ltb a.at b.at)) [
  | inl earlier ↦ rw earlier (
    move_back-All (λ (c : Comment). c.at ≤ b.at) a sorted (ground arith) h.0,
    move_back-IsDescending a sorted h.1,
  )
  | inr later ↦
      let order : b.at ≤ a.at = ground arith in
      rw later ((order, below a.at b.at sorted order h.0), h)
]

append-IsAscending :
    (front : List Comment) (a : Comment)
    → IsAscending front
    → All (λ (b : Comment). b.at ≤ a.at) front
    → IsAscending (front ++ (a ∷ []))
append-IsAscending [] a h all = (tt, tt)
append-IsAscending (b ∷ front) a h all = (
  All-append (λ (c : Comment). b.at ≤ c.at) front (a ∷ []) h.0 (all.0, tt),
  append-IsAscending front a h.1 all.1,
)

reverse-All : (P : Comment → Type 0) (sorted : List Comment) → All P sorted → All P (reverse sorted)
reverse-All P [] h = tt
reverse-All P (a ∷ sorted) h =
    rw (reverse-cons a sorted)
      (All-append P (reverse sorted) (a ∷ []) (reverse-All P sorted h.1) (h.0, tt))

reverse-IsAscending : (sorted : List Comment) → IsDescending sorted → IsAscending (reverse sorted)
reverse-IsAscending [] h = tt
reverse-IsAscending (a ∷ sorted) h = rw (reverse-cons a sorted) (
    append-IsAscending (reverse sorted) a (reverse-IsAscending sorted h.1)
      (reverse-All (λ (b : Comment). b.at ≤ a.at) sorted h.0))

sort_from-IsAscending :
    (sorted rest : List Comment) → IsDescending sorted → IsAscending (sort_from sorted rest)
unfolding sort_from
sort_from-IsAscending sorted [] h = reverse-IsAscending sorted h
sort_from-IsAscending sorted (a ∷ rest) h =
    sort_from-IsAscending (move_back a sorted) rest (move_back-IsDescending a sorted h)

sort_from-perm : (sorted rest : List Comment) → Perm (sort_from sorted rest) (rest ++ sorted)
unfolding sort_from
sort_from-perm sorted [] = reverse_perm sorted
sort_from-perm sorted (a ∷ rest) =
    Perm.trans (sort_from-perm (move_back a sorted) rest)
      (Perm.trans (Perm.append_left rest (move_back-perm a sorted)) (perm_middle rest sorted))

-- Posted strictly after; every comment is after the zero time.
abbrev pub IsSince : Option ℕ → Comment → Type 0
IsSince none a = Unit
IsSince (some since) a = since < a.at

newer-IsSince : (since : Option ℕ) (all : List Comment) → All (IsSince since) (newer since all)
unfolding newer
newer-IsSince none [] = tt
newer-IsSince none (a ∷ all) = (tt, newer-IsSince none all)
newer-IsSince (some since) [] = tt
newer-IsSince (some since) (a ∷ all) = elim (Bool-cases (ltb since a.at)) [
  | inl after ↦ rw after (ground arith, newer-IsSince (some since) all)
  | inr before ↦ rw before (newer-IsSince (some since) all)
]

-- The comments that the filter leaves out are not since the time.
newer-rest :
    (since : Option ℕ) (all : List Comment)
    → (rest : List Comment) × Perm (newer since all ++ rest) all
      × All (λ (a : Comment). ¬ IsSince since a) rest
unfolding newer
newer-rest none all = ([], rw (append-nil all) Perm.rfl, tt)
newer-rest (some since) [] = ([], Perm.rfl, tt)
newer-rest (some since) (a ∷ all) =
    let (rest, same, old) = newer-rest (some since) all in
    elim (Bool-cases (ltb since a.at)) [
      | inl after ↦ rw after (rest, Perm.cons a same, old)
      | inr before ↦
          let not_after : a.at ≤ since = ground arith in
          rw before (
            a ∷ rest,
            Perm.trans (perm_middle (newer (some since) all) rest) (Perm.cons a same),
            ((λ h. absurd (omega (arith, h, not_after))), old),
          )
    ]

sort_from-All :
    (P : Comment → Type 0) (sorted rest : List Comment)
    → All P sorted
    → All P rest
    → All P (sort_from sorted rest)
unfolding sort_from
sort_from-All P sorted [] h all = reverse-All P sorted h
sort_from-All P sorted (a ∷ rest) h all =
    sort_from-All P (move_back a sorted) rest (move_back-All P a sorted all.0 h) all.1

-- The comments that the fetch finds are returned oldest first: exactly those after the given time,
-- each as often as it was found. What is found and not returned is not after the time, and where
-- no time is given nothing is left out.
pub list_comments_since-IsAscending :
    (d : Decoder) (answers : ℕ → Str → Answer) (card_id : Str) (since : Option ℕ)
    (all : List Comment)
    → card_id ≢ []
    → fetch_comment_actions d answers true ≡ some (inr all)
    → (out : List Comment) × (list_comments_since d answers card_id since ≡ some (inr out))
      × IsAscending out
      × All (IsSince since) out
      × ((rest : List Comment) × Perm (out ++ rest) all
          × All (λ (a : Comment). ¬ IsSince since a) rest)
unfolding list_comments_since
list_comments_since-IsAscending d answers card_id since all given found =
    let (rest, same, old) = newer-rest since all in
    let sorted : Perm (sort_from [] (newer since all)) (newer since all) =
      rw (append-nil (newer since all)) at (sort_from-perm [] (newer since all)) in
    (
      sort_from [] (newer since all),
      rw (eq_false card_id [] given) (ap (sort_newer since) found),
      sort_from-IsAscending [] (newer since all) tt,
      sort_from-All (IsSince since) [] (newer since all) tt (newer-IsSince since all),
      (rest, Perm.trans (Perm.append_right rest sorted) same, old),
    )
