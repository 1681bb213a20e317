-- ===== src/Trello/Comments.antt =====
-- The comment history of a card in internal/app/trelloclient/client.go: `fetchCommentActions`,
-- `GetLatestComment` and `ListCommentsSince`. encoding/json and time.Parse are parameters.
pub mod Ends
pub mod Sorted
use trello_openclaw_webhook.Prelude.{
  ℕ, zero, suc, ◌+◌, Bool, true, false, not, Option, none, some, List, [], ◌∷◌, ◌++◌, Str, bytes,
  ◌==◌, ◌⊎◌, inl, inr, if◌then◌else◌, ltb, leb, length, reverse,
}
use trello_openclaw_webhook.Trello.{
  Comment, Error, Answer, read_and_check, empty_argument, decode_failed, no_comments,
}

-- The struct that `decodeCommentAction` decodes into.
pub record RawAction : Type 0 where
  pub id : Str
  pub date : Str
  pub text : Str
  pub creator_id : Str
  pub full_name : Str
  pub username : Str
  pub id_member_creator : Str

-- `items` splits an array; `action` decodes an element.
pub record Decoder : Type 0 where
  pub items : Str → Option (List Str)
  pub action : Str → Option RawAction
  pub parse_time : Str → Option ℕ

unfoldable pub comments_per_page : ℕ
comments_per_page = 1000

unfoldable pub comments_hard_cap : ℕ
comments_hard_cap = 5000

comment_at : RawAction → Option ℕ → Option Comment
comment_at raw none = none
comment_at raw (some at) = some (record {
  id = raw.id;
  text = raw.text;
  by = raw.full_name;
  by_id = if raw.creator_id == [] then raw.id_member_creator else raw.creator_id;
  at = at;
  username = raw.username;
})

dated : Decoder → Option RawAction → Option Comment
unfolding comment_at
dated d none = none
dated d (some raw) = if raw.date == [] then none else comment_at raw (d.parse_time raw.date)

unfoldable pub decode_comment_action : Decoder → Str → Option Comment
unfolding dated
decode_comment_action d body = dated d (d.action body)

-- The comments so far with those of the page, and the id of the page's last comment.
unfoldable pub scan_page : Decoder → List Str → List Comment → (last_id : Str) → List Comment × Str
unfolding decode_comment_action
scan_page d [] out last_id = (out, last_id)
scan_page d (item ∷ raw) out last_id = elim (decode_comment_action d item) [
  | none ↦ scan_page d raw out last_id
  | some comment ↦ scan_page d raw (out ++ (comment ∷ [])) comment.id
]

pub data Next : Type 0 where
  stop : List Comment → Next
  more : List Comment → (before : Str) → Next

-- The tests after a page's loop.
unfoldable pub after_scan : (paginate : Bool) (size : ℕ) → List Comment × Str → Next
unfolding comments_per_page comments_hard_cap
after_scan paginate size (out, last_id) =
    if not paginate
    then stop out
    else if leb comments_hard_cap (length out)
    then stop out
    else if ltb size comments_per_page
    then stop out
    else if last_id == []
    then stop out
    else more out last_id

unfoldable pub after_page : Decoder → (paginate : Bool) → List Str → List Comment → Next
unfolding scan_page after_scan
after_page d paginate [] out = stop out
after_page d paginate (item ∷ raw) out =
    after_scan paginate (length (item ∷ raw)) (scan_page d (item ∷ raw) out [])

abbrev pub decoded : Option (List Str) → Error ⊎ List Str
decoded none = inl decode_failed
decoded (some raw) = inr raw

unfoldable pub page_of : Decoder → Error ⊎ Str → Error ⊎ List Str
page_of d (inl err) = inl err
page_of d (inr body) = decoded (d.items body)

-- The loop. `answers n before` is the answer to the `n`-th request, for the page before the action
-- `before`; `none` is a loop whose rounds run out.
unfoldable pub fetch_from :
    Decoder
    → (answers : ℕ → (before : Str) → Answer) (paginate : Bool) (rounds n : ℕ) (before : Str)
    → List Comment
    → Option (Error ⊎ List Comment)
unfolding after_page page_of read_and_check
fetch_from d answers paginate zero n before out = none
fetch_from d answers paginate (suc rounds) n before out =
    elim (page_of d (read_and_check (answers n before) 200)) [
      | inl err ↦ some (inl err)
      | inr raw ↦ elim (after_page d paginate raw out) [
        | stop all ↦ some (inr all)
        | more all last_id ↦ fetch_from d answers paginate rounds (n + 1) last_id all
      ]
    ]

-- Each round but the last adds a comment.
unfoldable pub fetch_comment_actions :
    Decoder → (ℕ → (before : Str) → Answer) → (paginate : Bool) → Option (Error ⊎ List Comment)
unfolding fetch_from comments_hard_cap
fetch_comment_actions d answers paginate = fetch_from d answers paginate comments_hard_cap 0 [] []

-- The latest of `latest` and further comments.
unfoldable pub latest_of : Comment → List Comment → Comment
latest_of latest [] = latest
latest_of latest (a ∷ all) = latest_of (if ltb latest.at a.at then a else latest) all

abbrev pub pick_latest : Option (Error ⊎ List Comment) → Option (Error ⊎ Comment)
pick_latest none = none
pick_latest (some (inl err)) = some (inl err)
pick_latest (some (inr [])) = some (inl no_comments)
pick_latest (some (inr (a ∷ all))) = some (inr (latest_of a all))

unfoldable pub get_latest_comment :
    Decoder → (ℕ → (before : Str) → Answer) → (card_id : Str) → Option (Error ⊎ Comment)
unfolding fetch_comment_actions
get_latest_comment d answers card_id =
    if card_id == []
    then some (inl (empty_argument (bytes "card id")))
    else pick_latest (fetch_comment_actions d answers false)

-- `none` is the zero time.
unfoldable pub newer : Option ℕ → List Comment → List Comment
newer none all = all
newer (some since) [] = []
newer (some since) (a ∷ all) =
    let rest = newer (some since) all in if ltb since a.at then a ∷ rest else rest

-- The inner loop: `a` moves back over the later comments before it, which come in reverse.
unfoldable pub move_back : Comment → List Comment → List Comment
move_back a [] = a ∷ []
move_back a (b ∷ sorted) =
    let rest = move_back a sorted in if ltb a.at b.at then b ∷ rest else a ∷ b ∷ sorted

-- The outer loop: `sorted` is the front of the slice in reverse.
unfoldable pub sort_from : (sorted rest : List Comment) → List Comment
unfolding move_back
sort_from sorted [] = reverse sorted
sort_from sorted (a ∷ rest) = sort_from (move_back a sorted) rest

abbrev pub sort_newer : Option ℕ → Option (Error ⊎ List Comment) → Option (Error ⊎ List Comment)
sort_newer since none = none
sort_newer since (some (inl err)) = some (inl err)
sort_newer since (some (inr all)) = some (inr (sort_from [] (newer since all)))

unfoldable pub list_comments_since :
    Decoder
    → (ℕ → (before : Str) → Answer)
    → (card_id : Str) → (since : Option ℕ) → Option (Error ⊎ List Comment)
unfolding fetch_comment_actions
list_comments_since d answers card_id since =
    if card_id == []
    then some (inl (empty_argument (bytes "card id")))
    else sort_newer since (fetch_comment_actions d answers true)
