-- ===== src/LocalBoard/Server/Moves.antt =====
-- The move handler of internal/app/localboard/server.go from the request to the event that the
-- dispatcher reads.
use mathlib.Core.Option.{some-injective}
use trello_openclaw_webhook.Prelude.{
  ℕ, ◌≡◌, refl, sym, ap, ◌∙◌, Bool, Option, none, some, [], Str, bytes, ◌==◌, if◌then◌else◌,
  trim_space, inl, inr, arith, Bool-cases, nat_eq, eq_refl,
}
use trello_openclaw_webhook.Payload.{Fields}
use trello_openclaw_webhook.Dispatcher.Routing.{event_of}
use trello_openclaw_webhook.LocalBoard.{Card, Column, Comment, column_by_id}
use trello_openclaw_webhook.LocalBoard.Sql.{Sql, SqlLaws, CardRow, with_list}
use trello_openclaw_webhook.LocalBoard.Store.{
  Formats, Store, Result, get_card, card_found, card_of, move_card, move_to, list_changed,
}
use trello_openclaw_webhook.LocalBoard.Store.KnownLists.{with_list-list}
use trello_openclaw_webhook.LocalBoard.Payload.{Built, refused, payload, build_move_payload}
use trello_openclaw_webhook.LocalBoard.Payload.Events.{card_event, no_column, event_of-payload}
use trello_openclaw_webhook.LocalBoard.Server.{
  Draws, Response, dispatched, card_moved, after_move, move_from, move_before, handle_move,
}

no_comment : Comment
no_comment = record { id = []; text = []; by = []; by_id = []; at = 0; username = [] }

module _ (w : Formats) (sql : Sql) (laws : SqlLaws sql) where
  card_found-row :
      (card_id : Str) (db : sql.Db) (result : Option (Option CardRow)) (card : Card)
      → sql.select_card card_id db ≡ result
      → card_found w sql card_id result ≡ inr card
      → (row : CardRow) × (laws.card_at db card_id ≡ some row) × (card ≡ card_of w sql row)
  card_found-row card_id db none card done h = absurd (ground arith)
  card_found-row card_id db (some none) card done h = absurd (ground arith)
  card_found-row card_id db (some (some row)) card done h =
      (row, sym (laws.select_card-rows card_id db (some row) done), ground arith)

  -- A card that is found is the stored one, under its id.
  get_card-row :
      (card_id : Str) (db : sql.Db) (card : Card)
      → get_card w sql card_id db ≡ inr card
      → (row : CardRow) × (laws.card_at db card_id ≡ some row) × (card ≡ card_of w sql row)
  unfolding get_card
  get_card-row card_id db card h = elim (Bool-cases (trim_space card_id == [])) [
    | inl blank ↦ absurd (ground arith)
    | inr given ↦ card_found-row card_id db (sql.select_card card_id db) card refl (ground arith)
  ]

  list_changed-db :
      (card_id : Str) (s : Store w sql) (rows : ℕ) (after : sql.Db)
      → (list_changed w sql card_id s (some (rows, after))).0.db ≡ after
  list_changed-db card_id s rows after = elim (Bool-cases (nat_eq rows 0)) [
    | inl no_row ↦ rw no_row refl
    | inr changed ↦ rw changed refl
  ]

  list_changed-lands :
      (now : ℕ) (card_id target : Str) (s : Store w sql) (result : Option (ℕ × sql.Db))
      → sql.update_card_list target (w.format_time now) card_id s.db ≡ result
      → (list_changed w sql card_id s result).1 ≡ inr tt
      → (row : CardRow) → laws.card_at (list_changed w sql card_id s result).0.db card_id ≡ some row
      → row.id_list ≡ target
  list_changed-lands now card_id target s none done h row at = absurd (ground arith)
  list_changed-lands now card_id target s (some (rows, after)) done h row at =
      let here : laws.card_at after card_id ≡ some row =
        ap (λ db. laws.card_at db card_id) (sym (list_changed-db card_id s rows after)) ∙ at in
      let stored : laws.card_at after card_id ≡ (
          if card_id == card_id
          then with_list target (w.format_time now) (laws.card_at s.db card_id)
          else laws.card_at s.db card_id) =
        laws.update_card_list-rows target (w.format_time now) card_id s.db after rows card_id
          done in
      with_list-list target (w.format_time now) (laws.card_at s.db card_id) row
        (ground (arith, eq_refl card_id))

  move_to-lands :
      (now : ℕ) (card_id target : Str) (s : Store w sql) (column : Option Column)
      → (move_to w sql now card_id target s column).1 ≡ inr tt
      → (row : CardRow)
      → laws.card_at (move_to w sql now card_id target s column).0.db card_id ≡ some row
      → row.id_list ≡ target
  move_to-lands now card_id target s none h row at = absurd (ground arith)
  move_to-lands now card_id target s (some column) h row at =
      list_changed-lands now card_id target s
        (sql.update_card_list target (w.format_time now) card_id s.db) refl h row at

  move_card-lands :
      (now : ℕ) (card_id target : Str) (s : Store w sql)
      → (move_card w sql now card_id target s).1 ≡ inr tt
      → (row : CardRow)
      → laws.card_at (move_card w sql now card_id target s).0.db card_id ≡ some row
      → row.id_list ≡ target
  unfolding move_card
  move_card-lands now card_id target s h row at = elim (Bool-cases (trim_space card_id == [])) [
    | inl blank ↦ absurd (ground arith)
    | inr given ↦
        move_to-lands now card_id target s (column_by_id target) (ground arith) row (ground arith)
  ]

  called :
      (dispatch : Option (Fields → Bool)) (sent body : Fields)
      → elim dispatch [ none ↦ none | some call ↦ some sent ] ≡ some body
      → sent ≡ body
  called none sent body h = absurd (ground arith)
  called (some call) sent body h = some-injective _ _ h

  module _ (dispatch : Option (Fields → Bool)) (draws : Draws) (body : Fields) where
    dispatched-sent :
        (s : Store w sql) (built : Built) (response : Response)
        → (dispatched w sql dispatch s built response).sent ≡ some body
        → (built ≡ payload body) × ((dispatched w sql dispatch s built response).store ≡ s)
    dispatched-sent s (refused err) response h = absurd (ground arith)
    dispatched-sent s (payload sent) response h = (ap payload (called dispatch sent body h), refl)

    -- A body is sent for a card as it stands once it is moved.
    abbrev IsMoved : (card_id : Str) → (from to : Column) → Store w sql → Type 0
    IsMoved card_id from to s =
        (after : Card) × (get_card w sql card_id s.db ≡ inr after)
        × (build_move_payload draws.action_id draws.date after from to ≡ payload body)

    card_moved-sent :
        (card_id : Str) (from to : Column) (s : Store w sql) (found : Result Card)
        → get_card w sql card_id s.db ≡ found
        → (card_moved w sql dispatch draws from to s found).sent ≡ some body
        → IsMoved card_id from to s × ((card_moved w sql dispatch draws from to s found).store ≡ s)
    card_moved-sent card_id from to s (inl err) same h = absurd (ground arith)
    card_moved-sent card_id from to s (inr after) same h =
        let (built, kept) =
          dispatched-sent s (build_move_payload draws.action_id draws.date after from to)
            (Response.ok_card after) h in
        ((after, same, built), kept)

    after_move-sent :
        (card_id : Str) (from to : Column) (result : Store w sql × Result Unit)
        → (after_move w sql dispatch draws card_id from to result).sent ≡ some body
        → (result.1 ≡ inr tt)
          × IsMoved card_id from to result.0
          × ((after_move w sql dispatch draws card_id from to result).store ≡ result.0)
    after_move-sent card_id from to (s, inl err) h = absurd (ground arith)
    after_move-sent card_id from to (s, inr tt) h =
        let (is, kept) = card_moved-sent card_id from to s (get_card w sql card_id s.db) refl h in
        (refl, is, kept)

    -- What a move amounts to.
    abbrev pub Landed : (card_id target : Str) → Store w sql → Type 0
    Landed card_id target after =
        (to : Column) × (row : CardRow) × (column_by_id target ≡ some to)
        × (event_of body ≡ card_event (bytes "updateCard") card_id to no_column [])
        × (laws.card_at after.db card_id ≡ some row)
        × (row.id_list ≡ target)

    move_from-sent :
        (card_id target : Str) (s : Store w sql) (before : Card) (from to : Option Column)
        → column_by_id target ≡ to
        → (move_from w sql dispatch draws card_id target s before from to).sent ≡ some body
        → Landed card_id target
            (move_from w sql dispatch draws card_id target s before from to).store
    move_from-sent card_id target s before none to listed h = absurd (ground arith)
    move_from-sent card_id target s before (some from) none listed h = absurd (ground arith)
    move_from-sent card_id target s before (some from) (some to) listed h =
        let (done, (after, found, built), kept) =
          after_move-sent card_id from to (move_card w sql draws.now card_id target s) h in
        let (row, at, is) =
          get_card-row card_id (move_card w sql draws.now card_id target s).0.db after found in
        let id : after.id ≡ card_id =
          ap (λ (c : Card). c.id) is
          ∙ laws.card_at-key card_id (move_card w sql draws.now card_id target s).0.db row at in
        (
          to,
          row,
          listed,
          (event_of-payload draws.action_id draws.date after from to no_comment body).1 built
              ∙ ap (λ i. card_event (bytes "updateCard") i to no_column []) id,
          ap (λ (t : Store w sql). laws.card_at t.db card_id) kept ∙ at,
          move_card-lands draws.now card_id target s done row at,
        )

    move_before-sent :
        (card_id target : Str) (s : Store w sql) (found : Result Card)
        → (move_before w sql dispatch draws card_id target s found).sent ≡ some body
        → Landed card_id target (move_before w sql dispatch draws card_id target s found).store
    move_before-sent card_id target s (inl err) h = absurd (ground arith)
    move_before-sent card_id target s (inr before) h =
        move_from-sent card_id target s before (column_by_id before.id_list) (column_by_id target)
          refl h

    -- When a request to move a card leads to a call of the dispatcher, the target is a column of
    -- the board, the card is stored in it, and the dispatcher reads from the body an update of
    -- this card into the list with that column's id and name.
    pub handle_move-Landed :
        (card_id target : Str) (s : Store w sql)
        → (handle_move w sql dispatch draws card_id (some target) s).sent ≡ some body
        → Landed card_id target (handle_move w sql dispatch draws card_id (some target) s).store
    unfolding handle_move
    handle_move-Landed card_id target s h =
        move_before-sent card_id target s (get_card w sql card_id s.db) h
