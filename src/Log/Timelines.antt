-- ===== src/Log/Timelines.antt =====
-- The timelines of many cards read at once (internal/db/activity.go, ListCardEventsForBoard and
-- ListCardEventsForCards).
use kanban_store.Prelude.{
  String, Bool, true, false, ◌&&◌, List, [], ◌∷◌, ◌++◌, if◌then◌else◌, keep, ◌≡◌, refl, sym, ap,
  ◌∙◌, arith, Bool-cases, inl, inr, append_nil, append_one, keep-keep, keep-same,
}
use kanban_store.Prelude.Text.{◌=?◌, contains, text_eq_iff}
use kanban_store.Prelude.TextOrder.{text_lt_asym, text_lt_step}
use kanban_store.Prelude.Sort.{sort_stable}
use kanban_store.Prelude.SortKeep.{keep-sort_stable}
use kanban_store.Boards.Tables.{Placement}
use kanban_store.Timeline.Events.{CardEvent}
use kanban_store.Log.Events.{
  logged_before, of_card, on_timeline, add_event, group_events, list_card_events, cards_on,
  list_card_events_for_board, list_card_events_for_cards,
}

either_order : (a b : Bool) → (a && b) ≡ (b && a)
either_order a b = ground arith

unmasked : (a : Bool) → ((a && true) && true) ≡ a
unmasked a = ground arith

masked_false : (a : Bool) → ((a && false) && true) ≡ false
masked_false a = ground arith

nothing_of : (a : Bool) → (a && false) ≡ false
nothing_of a = ground arith

pub logged_asym : (a b : CardEvent) → logged_before a b ≡ true → logged_before b a ≡ false
unfolding logged_before
logged_asym a b h = ground (arith, text_lt_asym a.id b.id)

pub logged_step :
    (a b c : CardEvent)
    → logged_before a b ≡ false
    → logged_before b c ≡ false
    → logged_before a c ≡ false
unfolding logged_before
logged_step a b c h k = ground (arith, text_lt_step a.id b.id c.id)

group_events-keep :
    (rows : List CardEvent) (out : String → List CardEvent) (card_id : String)
    → group_events rows out card_id ≡ out card_id ++ keep (of_card card_id) rows
unfolding group_events keep
group_events-keep [] out card_id = sym (append_nil (out card_id))
group_events-keep (e ∷ rows) out card_id = elim (Bool-cases (of_card card_id e)) [
  | inl own ↦
      group_events-keep rows (add_event out e) card_id
      ∙ rw own (append_one (out card_id) e (keep (of_card card_id) rows))
  | inr other ↦ group_events-keep rows (add_event out e) card_id ∙ rw other refl
]

-- The events of one card of a sorted selection
selected_card :
    (log : List CardEvent) (q : CardEvent → Bool) (card_id : String)
    → group_events (sort_stable logged_before (keep q log)) (λ c. []) card_id
      ≡ sort_stable logged_before (keep (λ e. q e && of_card card_id e) log)
selected_card log q card_id =
    group_events-keep (sort_stable logged_before (keep q log)) (λ c. []) card_id
    ∙ keep-sort_stable logged_before logged_asym logged_step (of_card card_id) (keep q log)
    ∙ ap (sort_stable logged_before) (keep-keep (of_card card_id) q log)

keep-nothing :
    (q : CardEvent → Bool) (log : List CardEvent)
    → ((e : CardEvent) → q e ≡ false)
    → keep q log ≡ []
unfolding keep
keep-nothing q [] h = refl
keep-nothing q (e ∷ log) h = rw (h e) (keep-nothing q log h)

-- A selection that takes what is on the timeline for some of the cards
module _ (log : List CardEvent) (card_ids : List String) (board_id card_id : String)
    (q : CardEvent → Bool)
    (takes : (e : CardEvent) → q e ≡ (on_timeline board_id e && contains card_ids e.card_id)) where
  listed-same :
      contains card_ids card_id ≡ true
      → (e : CardEvent) → (q e && of_card card_id e) ≡ (of_card card_id e && on_timeline board_id e)
  listed-same there e = elim (Bool-cases (of_card card_id e)) [
    | inl own ↦
        let same : contains card_ids e.card_id ≡ true =
          ap (contains card_ids) ((text_eq_iff e.card_id card_id).0 own) ∙ there in
        rw (own, takes e, same) (unmasked (on_timeline board_id e))
    | inr other ↦ rw other (nothing_of (q e))
  ]

  unlisted-none :
      contains card_ids card_id ≡ false → (e : CardEvent) → (q e && of_card card_id e) ≡ false
  unlisted-none there e = elim (Bool-cases (of_card card_id e)) [
    | inl own ↦
        let same : contains card_ids e.card_id ≡ false =
          ap (contains card_ids) ((text_eq_iff e.card_id card_id).0 own) ∙ there in
        rw (own, takes e, same) (masked_false (on_timeline board_id e))
    | inr other ↦ rw other (nothing_of (q e))
  ]

  pub selected-list :
      group_events (sort_stable logged_before (keep q log)) (λ c. []) card_id
      ≡ (if contains card_ids card_id then list_card_events log card_id board_id else [])
  unfolding list_card_events sort_stable
  selected-list = elim (Bool-cases (contains card_ids card_id)) [
    | inl there ↦ rw there (
        selected_card log q card_id
        ∙ ap (sort_stable logged_before) (keep-same _ _ log (listed-same there)))
    | inr there ↦ rw there (
        selected_card log q card_id
        ∙ ap (sort_stable logged_before) (keep-nothing _ log (unlisted-none there)))
  ]

-- What the timelines of all the cards on a board say of a card is what the card's own timeline on that
-- board says, in the same order, if the card is placed there, and nothing otherwise. The board's id
-- is not empty.
pub list_card_events_for_board-list_card_events :
    {F : Type 0} (log : List CardEvent) (placements : List (Placement F))
    (board_id card_id : String)
    → (board_id =? "") ≡ false
    → list_card_events_for_board log placements board_id card_id ≡ (
        if contains (cards_on placements board_id) card_id
        then list_card_events log card_id board_id
        else [])
unfolding list_card_events_for_board
list_card_events_for_board-list_card_events log placements board_id card_id some_board =
    selected-list log (cards_on placements board_id) board_id card_id _ (λ e. rw some_board refl)

-- What the timelines of many cards say of a card is what the card's own timeline says, on the same
-- board or on all of them, if the card is asked for, and nothing otherwise.
pub list_card_events_for_cards-list_card_events :
    (log : List CardEvent) (card_ids : List String) (board_id card_id : String)
    → list_card_events_for_cards log card_ids board_id card_id
      ≡ (if contains card_ids card_id then list_card_events log card_id board_id else [])
unfolding list_card_events_for_cards contains
list_card_events_for_cards-list_card_events log [] board_id card_id = refl
list_card_events_for_cards-list_card_events log (first ∷ card_ids) board_id card_id =
    selected-list log (first ∷ card_ids) board_id card_id _
      (λ e. either_order (contains (first ∷ card_ids) e.card_id) (on_timeline board_id e))
