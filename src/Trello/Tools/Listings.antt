-- ===== src/Trello/Tools/Listings.antt =====
-- How often the tool `trello_card_move` of internal/app/trello_tools.go fetches the lists of a
-- board.
use trello_openclaw_webhook.Prelude.{
  ℕ, suc, ◌≤◌, ◌≡◌, refl, Option, none, some, List, [], Str, ◌==◌, ◌⊎◌, inl, inr, if◌then◌else◌,
  arith, Bool-cases,
}
use trello_openclaw_webhook.Trello.{Card, ListRef, Error}
use trello_openclaw_webhook.Trello.Tools.{CardClient, find_list_id, named, name_from, name_target}

module _ (to_lower : Str → Str) (client : CardClient) (parse_time : Str → Option ℕ) where
  named-id :
      (to : ListRef) (name : Option Str) → (named to_lower client parse_time to name).id ≡ to.id
  named-id to none = refl
  named-id to (some name) = refl

  name_from-id :
      (listings : ℕ) (to : ListRef) (lists : Error ⊎ List ListRef)
      → ((name_from to_lower client parse_time listings to lists).0 ≡ listings)
        × ((name_from to_lower client parse_time listings to lists).1.id ≡ to.id)
  name_from-id listings to (inl err) = (refl, refl)
  name_from-id listings to (inr lists) = (refl, named-id to (find_list_id lists to.id))

  -- Lists that are not cached have not been fetched.
  abbrev pub Fits : ℕ → Option (List ListRef) → Type 0
  Fits listings none = listings ≡ 0
  Fits listings (some lists) = listings ≤ 1

  name_target-id :
      (card : Card) (listings : ℕ) (cached : Option (List ListRef)) (to : ListRef)
      → Fits listings cached
      → ((name_target to_lower client parse_time card listings cached to).0 ≤ 1)
        × ((name_target to_lower client parse_time card listings cached to).1.id ≡ to.id)
  name_target-id card listings none to fits =
      let named_so = name_from-id (suc listings) to (client.list_board_lists card.id_board) in
      ground (arith, named_so)
  name_target-id card listings (some lists) to fits =
      ground (arith, name_from-id listings to (inr lists))

  pub Fits-few :
      (listings : ℕ) (cached : Option (List ListRef)) → Fits listings cached → listings ≤ 1
  Fits-few listings none fits = omega arith
  Fits-few listings (some lists) fits = fits

  pub chosen :
      (card : Card) (listings : ℕ) (cached : Option (List ListRef)) (to : ListRef)
      → Fits listings cached
      → ((if to.name == []
            then name_target to_lower client parse_time card listings cached to
            else (listings, to)).0
          ≤ 1)
        × ((if to.name == []
              then name_target to_lower client parse_time card listings cached to
              else (listings, to)).1.id
            ≡ to.id)
  chosen card listings cached to fits = elim (Bool-cases (to.name == [])) [
    | inl unnamed ↦ rw unnamed (name_target-id card listings cached to fits)
    | inr has_name ↦ rw has_name (Fits-few listings cached fits, refl)
  ]
