-- ===== src/Cards/Carried.antt =====
-- An action that carries forward the state of a card's clock leaves that state as it was
-- (internal/api/activity.go, clockStateCarriedForward; internal/api/assignments.go).
use kanban_store.Prelude.{
  String, Bool, true, ◌&&◌, List, [], ◌∷◌, ◌++◌, Option, none, some, keep, keep-append, append_nil,
  ◌≡◌, ◌⊎◌, refl, sym, ap, ◌∙◌, arith, Bool-cases, inl, inr,
}
use kanban_store.Prelude.Text.{◌=?◌, text_eq_iff}
use kanban_store.Prelude.Sort.{sort_stable}
use kanban_store.Timeline.Events.{Time, CardEvent, ClockState}
use kanban_store.Log.Events.{stored_event, logged_before, of_card, on_timeline, list_card_events}
use kanban_store.Log.Timelines.{logged_asym, logged_step}
use kanban_store.Cards.World.{World, record_event_and_fire_message_triggers}
use kanban_store.Cards.Recording.{more_log, record_event-cases}
use kanban_store.Cards.Clock.{last_state, last_recorded_clock_state, clock_state_carried_forward}
use kanban_store.Cards.Latest.{last_of, greatest, last_of-sort_stable, greatest_of_more}

abbrev state_in : Option CardEvent → Option ClockState
state_in none = none
state_in (some e) = some e.clock_state

last_state-last_of : (events : List CardEvent) → last_state events ≡ state_in (last_of events)
unfolding last_state last_of
last_state-last_of [] = refl
last_state-last_of (e ∷ []) = refl
last_state-last_of (e ∷ f ∷ events) = ground (arith, last_state-last_of (f ∷ events))

last_state-greatest :
    (xs : List CardEvent)
    → last_state (sort_stable logged_before xs) ≡ state_in (greatest logged_before xs)
last_state-greatest xs =
    last_state-last_of (sort_stable logged_before xs)
    ∙ ap state_in (last_of-sort_stable logged_before logged_asym logged_step xs)

-- With one more event the state is the event's or the one before.
last_state_of_more :
    (xs : List CardEvent) (e : CardEvent)
    → (last_state (sort_stable logged_before (xs ++ (e ∷ []))) ≡ some e.clock_state)
      ⊎ (last_state (sort_stable logged_before (xs ++ (e ∷ [])))
          ≡ last_state (sort_stable logged_before xs))
last_state_of_more xs e = elim (greatest_of_more logged_before logged_asym logged_step xs e) [
  | inl (new, above) ↦ inl (last_state-greatest (xs ++ (e ∷ [])) ∙ ap state_in new)
  | inr same ↦
      inr (last_state-greatest (xs ++ (e ∷ [])) ∙ ap state_in same ∙ sym (last_state-greatest xs))
]

last_recorded_of_more :
    (log : List CardEvent) (e : CardEvent) (card_id board_id : String)
    → (last_recorded_clock_state (log ++ (e ∷ [])) card_id board_id
        ≡ last_recorded_clock_state log card_id board_id)
      ⊎ (((e.card_id =? card_id) ≡ true)
          × (last_recorded_clock_state (log ++ (e ∷ [])) card_id board_id ≡ some e.clock_state))
unfolding last_recorded_clock_state list_card_events keep
last_recorded_of_more log e card_id board_id =
    let q : CardEvent → Bool = λ f. of_card card_id f && on_timeline board_id f in
    let split = keep-append q log (e ∷ []) in
    elim (Bool-cases (q e)) [
      | inl own ↦
          let kept : keep q (log ++ (e ∷ [])) ≡ keep q log ++ (e ∷ []) = split ∙ rw own refl in
          elim (last_state_of_more (keep q log) e) [
            | inl new ↦
                inr (ground arith, ap (λ l. last_state (sort_stable logged_before l)) kept ∙ new)
            | inr same ↦ inl (ap (λ l. last_state (sort_stable logged_before l)) kept ∙ same)
          ]
      | inr other ↦
          let kept : keep q (log ++ (e ∷ [])) ≡ keep q log =
            split ∙ rw other (append_nil (keep q log)) in
          inl (ap (λ l. last_state (sort_stable logged_before l)) kept)
    ]

module _ {F : Type 0} where
  -- The state that an action carries forward is the same for a card, and its last state on a board is
  -- the same or that one.
  abbrev pub SameClock : World F → World F → String → String → Type 0
  SameClock w v card_id board_id =
      (clock_state_carried_forward v card_id ≡ clock_state_carried_forward w card_id)
      × ((last_recorded_clock_state v.log card_id board_id
            ≡ last_recorded_clock_state w.log card_id board_id)
          ⊎ (last_recorded_clock_state v.log card_id board_id
              ≡ clock_state_carried_forward w card_id))

  abbrev pub SameClocks : World F → World F → Type 0
  SameClocks w v = (card_id board_id : String) → SameClock w v card_id board_id

  pub SameClocks-same : (w : World F) → SameClocks w w
  SameClocks-same w card_id board_id = (refl, inl refl)

  carried_of_more :
      (w : World F) (e : CardEvent)
      → clock_state_carried_forward w e.card_id ≡ some e.clock_state
      → (card_id : String)
      → clock_state_carried_forward (more_log w e) card_id ≡ clock_state_carried_forward w card_id
  unfolding clock_state_carried_forward more_log
  carried_of_more w e at_it card_id = elim (last_recorded_of_more w.log e card_id "") [
    | inl same ↦ rw same refl
    | inr (own, new) ↦
        let card = (text_eq_iff e.card_id card_id).0 own in
        rw new (sym at_it ∙ ap (clock_state_carried_forward w) card)
  ]

  more_log-SameClocks :
      (w : World F) (e : CardEvent)
      → clock_state_carried_forward w e.card_id ≡ some e.clock_state
      → SameClocks w (more_log w e)
  unfolding more_log
  more_log-SameClocks w e at_it card_id board_id = (
    carried_of_more w e at_it card_id,
    elim (last_recorded_of_more w.log e card_id board_id) [
      | inl same ↦ inl same
      | inr (own, new) ↦
          let card = (text_eq_iff e.card_id card_id).0 own in
          inr (new ∙ sym at_it ∙ ap (clock_state_carried_forward w) card)
    ],
  )

  abbrev pub left_by : {A : Type 0} → World F × A → World F
  left_by (w, a) = w

  pub record_event-SameClocks :
      (now : Time) (new_id : String) (e : CardEvent) (w : World F)
      → clock_state_carried_forward w e.card_id ≡ some e.clock_state
      → SameClocks w (left_by (record_event_and_fire_message_triggers now new_id e w))
  record_event-SameClocks now new_id e w at_it = elim (record_event-cases now new_id e w) [
    | inl same ↦ rw same (SameClocks-same w)
    | inr more ↦
        rw more (more_log-SameClocks w (stored_event now new_id e) (unfold stored_event in at_it))
  ]
