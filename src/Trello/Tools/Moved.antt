-- ===== src/Trello/Tools/Moved.antt =====
-- What the tool `trello_card_move` of internal/app/trello_tools.go does to the board.
use trello_openclaw_webhook.Prelude.{
  ℕ, ◌≤◌, ◌≡◌, ◌≢◌, refl, ap, sym, ◌∙◌, false, ◌&&◌, Option, none, some, List, [], ◌∷◌, ◌++◌, All,
  Str, ◌==◌, ◌⊎◌, inl, inr, if◌then◌else◌, trim_space, arith, eq_iff, Bool-cases,
}
use trello_openclaw_webhook.Trello.{Card, ListRef, Error}
use trello_openclaw_webhook.Trello.Tools.{
  CardClient, ToolError, MoveParams, MoveResult, Attempt, find_lowered, find_list_by_name,
  after_put, move_to_list, move_to_match, move_by_name, move_from_list, move_found, move_card,
  from_list, trello_card_move,
}
use trello_openclaw_webhook.Trello.Tools.Listings.{Fits, Fits-few, chosen}

-- The first list of the board with the wanted name.
abbrev pub IsFirstNamed : (to_lower : Str → Str) → (name : Str) → List ListRef → Str → Type 0
IsFirstNamed to_lower name lists id =
    (before : List ListRef) × (l : ListRef) × (after : List ListRef) × (lists
      ≡ before ++ (l ∷ after))
    × All (λ (b : ListRef). to_lower b.name ≢ to_lower (trim_space name)) before
    × (to_lower l.name ≡ to_lower (trim_space name))
    × (l.id ≡ id)

module _ (to_lower : Str → Str) (client : CardClient) (parse_time : Str → Option ℕ) where
  -- A card is moved by one request, or it is in the target already.
  abbrev pub IsDone : MoveParams → Card → Attempt → MoveResult → Type 0
  IsDone p card a r =
      (a.listings ≤ 1)
      × (((r.to.id ≡ card.id_list) × (a.moves ≡ []))
          ⊎ ((r.to.id ≢ card.id_list)
              × (client.move_card p.card_id r.to.id ≡ none)
              × (a.moves ≡ (p.card_id, r.to.id) ∷ [])))

  module _ (p : MoveParams) (card : Card) where
    after_put-IsDone :
        (listings : ℕ) (cached : Option (List ListRef)) (from to : ListRef) (put : Option Error)
        (r : MoveResult)
        → Fits to_lower client parse_time listings cached
        → (to.id == card.id_list) ≡ false
        → client.move_card p.card_id to.id ≡ put
        → (after_put to_lower client parse_time p card listings cached from to put).result ≡ inr r
        → IsDone p card (after_put to_lower client parse_time p card listings cached from to put) r
          × (r.to.id ≡ to.id)
    after_put-IsDone listings cached from to (some err) r fits other sent h = absurd (ground arith)
    after_put-IsDone listings cached from to none r fits other sent h =
        let (few, kept) = chosen to_lower client parse_time card listings cached to fits in
        let same : r.to.id ≡ to.id =
          ap (λ (x : ToolError ⊎ MoveResult). elim x [ inl _ ↦ r.to.id | inr m ↦ m.to.id ]) (sym h)
          ∙ kept in
        (
          (
            few,
            inr (
              λ e. absurd (ground (arith, eq_iff to.id card.id_list)),
              ap (client.move_card p.card_id) same ∙ sent,
              ap (λ id. (p.card_id, id) ∷ []) (sym same),
            ),
          ),
          same,
        )

    move_to_list-IsDone :
        (listings : ℕ) (cached : Option (List ListRef)) (from to : ListRef) (r : MoveResult)
        → Fits to_lower client parse_time listings cached
        → (move_to_list to_lower client parse_time p card listings cached from to).result ≡ inr r
        → IsDone p card (move_to_list to_lower client parse_time p card listings cached from to) r
          × (r.to.id ≡ to.id)
    move_to_list-IsDone listings cached from to r fits h =
        elim (Bool-cases (to.id == card.id_list)) [
          | inl there ↦
              let kept : (if to.name == [] then record { id = to.id; name = from.name } else to).id
                  ≡ to.id =
                ground arith in
              let same : r.to.id ≡ to.id = ground arith in
              rw there (
                (
                  Fits-few to_lower client parse_time listings cached fits,
                  inl (same ∙ (eq_iff to.id card.id_list).0 there, refl),
                ),
                same,
              )
          | inr other ↦ rw other (
              after_put-IsDone listings cached from to (client.move_card p.card_id to.id) r fits
                other refl (ground arith))
        ]

    find_lowered-IsFirstNamed :
        (name : Str) (lists : List ListRef) (to : ListRef)
        → find_lowered to_lower client parse_time lists (to_lower (trim_space name)) ≡ some to
        → IsFirstNamed to_lower name lists to.id
    unfolding find_lowered
    find_lowered-IsFirstNamed name [] to h = absurd (ground arith)
    find_lowered-IsFirstNamed name (l ∷ lists) to h =
        elim (Bool-cases (to_lower l.name == to_lower (trim_space name))) [
          | inl same ↦ (
            [],
            l,
            lists,
            refl,
            tt,
            (eq_iff (to_lower l.name) (to_lower (trim_space name))).0 same,
            ground arith,
          )
          | inr other ↦
              let (before, found, after, at, none_before, named_so, id) =
                find_lowered-IsFirstNamed name lists to (ground arith) in
              (
                l ∷ before,
                found,
                after,
                ap (◌∷◌ l) at,
                (
                  λ e.
                      absurd
                        (ground (arith, eq_iff (to_lower l.name) (to_lower (trim_space name)))),
                  none_before,
                ),
                named_so,
                id,
              )
        ]

    -- The list that a move asks for: the name counts only where no id is given.
    abbrev pub IsTarget : Str → Type 0
    IsTarget id =
        ((trim_space p.target_list_id ≢ []) × (id ≡ trim_space p.target_list_id))
        ⊎ ((trim_space p.target_list_id ≡ [])
            × ((lists : List ListRef) × (client.list_board_lists card.id_board ≡ inr lists)
                × IsFirstNamed to_lower p.target_list_name lists id))

    move_to_match-IsDone :
        (lists : List ListRef) (from : ListRef) (found : Option ListRef) (r : MoveResult)
        → trim_space p.target_list_id ≡ []
        → find_list_by_name to_lower client parse_time lists p.target_list_name ≡ found
        → client.list_board_lists card.id_board ≡ inr lists
        → (move_to_match to_lower client parse_time p card lists from found).result ≡ inr r
        → IsDone p card (move_to_match to_lower client parse_time p card lists from found) r
          × IsTarget r.to.id
    unfolding find_list_by_name
    move_to_match-IsDone lists from none r unset is fetched h = absurd (ground arith)
    move_to_match-IsDone lists from (some to) r unset is fetched h =
        let (done, same) = move_to_list-IsDone 1 (some lists) from to r (omega arith) h in
        let (before, l, after, at, none_before, name, id) =
          find_lowered-IsFirstNamed p.target_list_name lists to is in
        (
          done,
          inr (unset, (lists, fetched, (before, l, after, at, none_before, name, id ∙ sym same))),
        )

    move_by_name-IsDone :
        (from : ListRef) (lists : Error ⊎ List ListRef) (r : MoveResult)
        → trim_space p.target_list_id ≡ []
        → client.list_board_lists card.id_board ≡ lists
        → (move_by_name to_lower client parse_time p card from lists).result ≡ inr r
        → IsDone p card (move_by_name to_lower client parse_time p card from lists) r
          × IsTarget r.to.id
    move_by_name-IsDone from (inl err) r unset fetched h = absurd (ground arith)
    move_by_name-IsDone from (inr lists) r unset fetched h =
        move_to_match-IsDone lists from
          (find_list_by_name to_lower client parse_time lists p.target_list_name) r unset refl
          fetched h

    move_from_list-IsDone :
        (from : ListRef) (r : MoveResult)
        → (move_from_list to_lower client parse_time p card from).result ≡ inr r
        → IsDone p card (move_from_list to_lower client parse_time p card from) r × IsTarget r.to.id
    move_from_list-IsDone from r h = elim (Bool-cases (trim_space p.target_list_id == [])) [
      | inl unset ↦ rw unset (
          move_by_name-IsDone from (client.list_board_lists card.id_board) r
            ((eq_iff (trim_space p.target_list_id) []).0 unset) refl (ground arith))
      | inr set ↦
          let (done, same) =
            move_to_list-IsDone 0 none from (record { id = trim_space p.target_list_id; name = [] })
              r refl (ground arith) in
          rw set (
            done,
            inl (λ e. absurd (ground (arith, eq_iff (trim_space p.target_list_id) [])), same),
          )
    ]

  move_found-IsDone :
      (p : MoveParams) (found : Error ⊎ Card) (r : MoveResult)
      → (move_found to_lower client parse_time p found).result ≡ inr r
      → (card : Card) × (found ≡ inr card)
        × IsDone p card (move_found to_lower client parse_time p found) r
        × IsTarget p card r.to.id
  move_found-IsDone p (inl err) r h = absurd (ground arith)
  move_found-IsDone p (inr card) r h =
      let (done, target) =
        move_from_list-IsDone p card
          (from_list to_lower client parse_time card (client.get_card_list p.card_id)) r h in
      (card, refl, done, target)

  -- When the tool succeeds, the target is the list of the given id; only where no id is given is it
  -- the first list of the card's board with the given name, up to case; the card is moved there by exactly one request, or by none
  -- where it was there already; and the board's lists are fetched at most once.
  pub trello_card_move-IsDone :
      (p : MoveParams) (r : MoveResult)
      → (trello_card_move to_lower client parse_time p).result ≡ inr r
      → (card : Card) × (client.get_card p.card_id ≡ inr card)
        × IsDone p card (trello_card_move to_lower client parse_time p) r
        × IsTarget p card r.to.id
  unfolding trello_card_move move_card
  trello_card_move-IsDone p r h = elim (Bool-cases (trim_space p.card_id == [])) [
    | inl no_card ↦ absurd (ground arith)
    | inr card ↦
        rw card
          (elim (Bool-cases
            (trim_space p.target_list_id == [] && trim_space p.target_list_name == [])) [
              | inl no_list ↦ absurd (ground arith)
              | inr list ↦
                  rw list (move_found-IsDone p (client.get_card p.card_id) r (ground arith))
            ])
  ]
