-- ===== src/Trello/Comments/Ends.antt =====
-- The paginated fetch of `fetchCommentActions` of internal/app/trelloclient/client.go.
use trello_openclaw_webhook.Prelude.{
  ℕ, zero, suc, ◌+◌, ◌≤◌, ◌<◌, ◌≡◌, refl, sym, ap, Bool, false, Option, some, List, [], ◌∷◌, ◌++◌,
  Str, ◌==◌, ◌⊎◌, inl, inr, eq_refl, length, length-append, arith, Option-cases,
}
use trello_openclaw_webhook.Trello.{Comment, Error, Answer, read_and_check}
use trello_openclaw_webhook.Trello.Comments.{
  Decoder, Next, stop, more, decode_comment_action, scan_page, after_scan, after_page, page_of,
  fetch_from, fetch_comment_actions, comments_hard_cap,
}

-- A page whose last id is not empty has a comment.
scan_page-grows :
    (d : Decoder) (raw : List Str) (out : List Comment) (last_id : Str)
    → (length out ≤ length (scan_page d raw out last_id).0)
      × (length (scan_page d raw out last_id).0 ≤ length out + length raw)
      × (((scan_page d raw out last_id).1 ≡ last_id)
          ⊎ (length out < length (scan_page d raw out last_id).0))
unfolding scan_page
scan_page-grows d [] out last_id = (omega arith, omega arith, inl refl)
scan_page-grows d (item ∷ raw) out last_id = elim (Option-cases (decode_comment_action d item)) [
  | inl malformed ↦ ground (arith, scan_page-grows d raw out last_id)
  | inr (comment, found) ↦ ground (
    arith,
    scan_page-grows d raw (out ++ (comment ∷ [])) comment.id,
    length-append out (comment ∷ []),
  )
]

after_scan-more :
    (paginate : Bool) (size : ℕ) (scanned all : List Comment) (last_id before : Str)
    → after_scan paginate size (scanned, last_id) ≡ more all before
    → (scanned ≡ all) × ((last_id == []) ≡ false) × (length scanned < comments_hard_cap)
unfolding after_scan
after_scan-more paginate size scanned all last_id before h = ground arith

after_scan-stop :
    (paginate : Bool) (size : ℕ) (scanned all : List Comment) (last_id : Str)
    → after_scan paginate size (scanned, last_id) ≡ stop all
    → scanned ≡ all
unfolding after_scan
after_scan-stop paginate size scanned all last_id h = ground arith

-- Another page is asked for only below the cap and with a further comment.
after_page-more :
    (d : Decoder) (paginate : Bool) (raw : List Str) (out all : List Comment) (before : Str)
    → after_page d paginate raw out ≡ more all before
    → (length out < length all) × (length all < comments_hard_cap)
unfolding after_page
after_page-more d paginate [] out all before h = absurd (ground arith)
after_page-more d paginate (item ∷ raw) out all before h =
    let (same, last, few) =
      after_scan-more paginate (length (item ∷ raw)) (scan_page d (item ∷ raw) out []).0 all
        (scan_page d (item ∷ raw) out []).1 before h in
    ground (arith, scan_page-grows d (item ∷ raw) out [], eq_refl [], ap length same)

after_page-stop :
    (d : Decoder) (paginate : Bool) (raw : List Str) (out all : List Comment)
    → after_page d paginate raw out ≡ stop all
    → length all ≤ length out + length raw
unfolding after_page
after_page-stop d paginate [] out all h = ground arith
after_page-stop d paginate (item ∷ raw) out all h =
    let same : (scan_page d (item ∷ raw) out []).0 ≡ all =
      after_scan-stop paginate (length (item ∷ raw)) (scan_page d (item ∷ raw) out []).0 all
        (scan_page d (item ∷ raw) out []).1 h in
    ground (arith, scan_page-grows d (item ∷ raw) out [], ap length same)

module _ (d : Decoder) (answers : ℕ → Str → Answer) (paginate : Bool) where
  -- A page that one of the answers holds.
  abbrev pub IsPage : List Str → Type 0
  IsPage raw =
      (n : ℕ) × (before : Str) × (page_of d (read_and_check (answers n before) 200) ≡ inr raw)

  -- The loop ends, with fewer comments than the cap and a page that was read together.
  abbrev pub Ended : Option (Error ⊎ List Comment) → Type 0
  Ended fetched =
      (result : Error ⊎ List Comment) × (fetched ≡ some result)
      × ((all : List Comment)
          → result ≡ inr all
          → (raw : List Str) × IsPage raw × (length all < comments_hard_cap + length raw))

  round-ends :
      (rounds n : ℕ) (before : Str) (out : List Comment) (page : Error ⊎ List Str)
      → page_of d (read_and_check (answers n before) 200) ≡ page
      → length out < comments_hard_cap
      → ((all : List Comment) (last_id : Str)
          → length out < length all
          → length all < comments_hard_cap
          → Ended (fetch_from d answers paginate rounds (n + 1) last_id all))
      → Ended (elim page [
        | inl err ↦ some (inl err)
        | inr raw ↦ elim (after_page d paginate raw out) [
          | stop all ↦ some (inr all)
          | more all last_id ↦ fetch_from d answers paginate rounds (n + 1) last_id all
        ]
      ])
  round-ends rounds n before out (inl err) read few later =
      (inl err, refl, λ all h. absurd (ground arith))
  round-ends rounds n before out (inr raw) read few later =
      after (after_page d paginate raw out) refl
    where
      after :
          (next : Next)
          → after_page d paginate raw out ≡ next
          → Ended (elim next [
            | stop all ↦ some (inr all)
            | more all last_id ↦ fetch_from d answers paginate rounds (n + 1) last_id all
          ])
      after (stop all) e = (
        inr all,
        refl,
        λ found same.
            let size : length found ≡ length all =
              ap (λ (r : Error ⊎ List Comment). elim r [ inl _ ↦ 0 | inr a ↦ length a ])
                (sym same) in
            (
              raw,
              (n, before, read),
              ground (arith, after_page-stop d paginate raw out all e, size),
            ),
      )
      after (more all last_id) e =
          let (grown, capped) = after_page-more d paginate raw out all last_id e in
          later all last_id grown capped

  fetch_from-Ended :
      (rounds n : ℕ) (before : Str) (out : List Comment)
      → length out < comments_hard_cap
      → comments_hard_cap ≤ length out + rounds
      → Ended (fetch_from d answers paginate rounds n before out)
  unfolding fetch_from
  fetch_from-Ended zero n before out few enough = absurd (omega arith)
  fetch_from-Ended (suc rounds) n before out few enough =
      round-ends rounds n before out (page_of d (read_and_check (answers n before) 200)) refl few
        (λ all last_id grown capped.
          fetch_from-Ended rounds (n + 1) last_id all capped (omega arith))

  -- Whatever the answers are and however they decode, the walk through a card's history ends after
  -- at most as many requests as the cap: with an error, or with fewer comments than the cap and one
  -- page of the answers together.
  pub fetch_comment_actions-Ended : Ended (fetch_comment_actions d answers paginate)
  unfolding fetch_comment_actions comments_hard_cap
  fetch_comment_actions-Ended =
      fetch_from-Ended comments_hard_cap 0 [] [] (omega arith) (omega arith)
