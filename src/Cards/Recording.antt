-- ===== src/Cards/Recording.antt =====
-- What recording an event does to the records (internal/api/activity.go,
-- recordEventAndFireMessageTriggers).
use kanban_store.Prelude.{String, [], ◌∷◌, ◌++◌, none, some, ◌≡◌, ◌⊎◌, refl, Bool-cases, inl, inr}
use kanban_store.Prelude.Text.{◌=?◌}
use kanban_store.Timeline.Events.{Time, CardEvent, valid_clock_state}
use kanban_store.Log.Events.{record_card_event, insert_event, stored_event, violates_unique}
use kanban_store.Cards.World.{World, logged, record_event_and_fire_message_triggers}

module _ {F : Type 0} where
  -- One more event in the log, that the message triggers are handed
  unfoldable pub more_log : World F → CardEvent → World F
  more_log w e = record w { log = w.log ++ (e ∷ []); fired = w.fired ++ (e ∷ []) }

  insert_event-cases :
      (e : CardEvent) (w : World F)
      → (logged w (insert_event e w.log) ≡ (w, none))
        ⊎ (logged w (insert_event e w.log) ≡ (more_log w e, some e))
  unfolding insert_event logged more_log
  insert_event-cases e w = elim (Bool-cases (violates_unique e w.log)) [
    | inl clash ↦ inl (rw clash refl)
    | inr free ↦ inr (rw free refl)
  ]

  pub record_event-cases :
      (now : Time) (new_id : String) (e : CardEvent) (w : World F)
      → (record_event_and_fire_message_triggers now new_id e w ≡ (w, none))
        ⊎ (record_event_and_fire_message_triggers now new_id e w
            ≡ (more_log w (stored_event now new_id e), some (stored_event now new_id e)))
  unfolding record_event_and_fire_message_triggers record_card_event logged
  record_event-cases now new_id e w = elim (Bool-cases (e.card_id =? "")) [
    | inl no_card ↦ inl (rw no_card refl)
    | inr card ↦ elim (Bool-cases (e.kind =? "")) [
      | inl no_kind ↦ inl (rw (card, no_kind) refl)
      | inr kind ↦ elim (Bool-cases (valid_clock_state e.clock_state)) [
        | inl known ↦ rw (card, kind, known) (insert_event-cases (stored_event now new_id e) w)
        | inr unknown ↦ inl (rw (card, kind, unknown) refl)
      ]
    ]
  ]
