-- ===== src/Lib.antt =====
-- Verification of kanban-store, a Go service that keeps boards, columns and the cards placed on them
-- beside a noteboard that keeps the cards' contents. The HTTP handlers (internal/api) ask the gate who
-- may do what, call the store (internal/db, on SQLite), and fire message triggers on the events that
-- the store records; time figures are computed from a card's events.
--
-- The parts and the files:
-- - Access: the gate in front of every route (internal/api/principal_access.go). Access/Levels has
--   BoardAccessLevel, PrincipalBoardAccess, levelOnCard, requireOnBoard and requireOnCard;
--   Access/Grants has boardAccessOfPrincipal; Access/Routes has authorizeRequest; Access/Gate has
--   principalGate. Access/CardLevel, Access/GrantLevel, Access/RouteSafety and Access/GateSafety
--   are the proofs.
-- - Timeline: Timeline/Events has card events and clock states (internal/model/activity.go),
--   Timeline/Business has business hours and BusinessSecondsBetween, Timeline/Compute has Compute
--   (internal/timeaccounting/timeaccounting.go); Timeline/BusinessBounds and Timeline/Elapsed are the
--   proofs.
-- - TagRules: TagRules/Rules has the rules, their validation and ResolveEffectiveDefaults
--   (internal/model/tag_rules.go), TagRules/Stored has the table (internal/db/tag_rules.go);
--   TagRules/Precedence, TagRules/Validity, TagRules/Written and TagRules/RoundTrip are the proofs.
-- - Boards: Boards/Tables, Boards/Columns and Boards/Placing have the tables and the operations of
--   internal/db/db.go, and Boards/Settings has UpdateBoard, as what is prepared from the row read and
--   what is then written, Boards/Assignments has the assignments; Boards/Consistency, Boards/Keeps,
--   Boards/ColumnKeeps, Boards/History, Boards/Effects and Boards/Versions are the proofs. Each
--   operation takes the tables and answers with a Reply: an error and the tables as they were, or an answer and the new tables.
-- - Classification: Classification/Records and Classification/Work have the rows, the refusals and the
--   transaction of internal/db/classification.go. Classification/Revisions and
--   Classification/Identifiers have the revisions and the minted ids, Classification/Taxonomies and
--   Classification/Policies SetBoardTaxonomy and SetBoardClassificationPolicy,
--   Classification/Decisions PublishClassificationDecision, Classification/Reviews and
--   Classification/Labels ReviewClassificationDecision. Each call takes the records and answers
--   with an Outcome: the records as far as they were written with an error, or with an answer;
--   write_immediately rolls back at an error. Classification/Calls has sequences of calls.
--   Classification/Outcomes, TaxonomyEffects, PolicyEffects, Publications and Admission say what a
--   call that writes leaves behind; Counted, Register, Issued, Sound, Keeps, Served, Answers,
--   ReviewedAxes, ReviewLaws and LabelRevisions, all below Classification, are the other proofs.
-- - Arrivals: Arrivals/WorkState has SharedWorkState (internal/model/work_state_selection.go),
--   Arrivals/Pool has pickFromAssignmentPool and assigneeOnArrival (internal/api/board_settings.go),
--   on the effective defaults of TagRules; Arrivals/PoolSafety has the proofs.
-- - Messaging: Messaging/Dispatcher and Messaging/Firing have the dispatcher
--   (internal/messaging/dispatcher.go) with the claim of internal/db/messaging.go, on the events of
--   Timeline; Messaging/Claims, Messaging/AtMostOnce and Messaging/Recorded have the
--   proofs.
-- - Log: Log/Events has the log of card events, Log/Notes the notes, Log/Ladder the priority ladder
--   and its validation, Log/Pages the filtered pages of a column (internal/db/activity.go,
--   internal/model/activity.go); Log/Successors, Log/Timelines, Log/LadderRoundTrip and Log/AllPages
--   are the proofs.
-- - Tickets: Tickets/Rows has the table of tickets (internal/db/ticket.go, internal/model/ticket.go),
--   whose filter Log/Pages uses; Tickets/Source has the proofs.
-- - SpendCeilings: SpendCeilings/Defaults has the default spend ceilings of
--   internal/api/priority_default_spend_ceiling.go, on the ladder of Log and the placements of Boards;
--   SpendCeilings/Lowest and SpendCeilings/HandSet have the proofs.
-- - Bulk: Bulk/Commands has the validation of a bulk request and the change of a card's tags,
--   Bulk/Runs the requests that are made for the cards (internal/api/bulk_card_commands.go), each
--   served by an argument; Bulk/ChangedTags has a proof.
-- - BoundedText: BoundedText/Cut has the cut of a text on a rune boundary
--   (internal/boundedtext/boundedtext.go); BoundedText/CutBounds has the proofs.
-- - Entities: Entities/Tags and Entities/Links have the tags of entities and the links of cards
--   (internal/db/db.go); Entities/TagCounts and Entities/LinkEffects have the proofs.
-- - Cards: the handlers of requests on cards, on the parts above. Cards/World has what they read and
--   write, Cards/Clock clockStateForColumn and clockStateCarriedForward (internal/api/activity.go),
--   Cards/Arriving assigneeOnArrival on the tables and applyAssigneeOnArrival
--   (internal/api/board_settings.go), Cards/Placements checkWIP, moveCard and boardCardByID,
--   Cards/Creating createCardOnBoard (internal/api/api.go), Cards/Actions holdCard, assignPrincipal and
--   unassignPrincipal (internal/api/assignments.go), and Cards/Requests sequences of requests. Each
--   handler takes the records and leaves them as far as they were written when it answers; it is one
--   step, so that the count of a column's cards is not read while another request writes. The writes
--   that are sent to noteboard are a list, and its answers arguments. Cards/Limits, Counting, Wip,
--   Recording, Latest, Carried, SteadyClocks, Kept, Placed, Served and Moved, all below Cards, are the
--   proofs.
-- - Prelude: shared names and lemmas. Files whose names end in Examples have concrete inputs.
--
-- How the code is read. A time is a number of nanoseconds since Go's zero time, a duration an exact
-- number of nanoseconds, up to the longest time.Duration, where the source divides into a float64. A Go map is a list of pairs or a
-- function. A column's position is a float64 of which only 0.0, + 1.0 and > are used: the type is a
-- parameter. The answers of principal-store, grant-store, multichat, llm-bridge's msg package, the zone
-- database and the JSON decoder are parameters, as are the reads of the store that the route table
-- makes. The walk over the days of a range runs on fuel, the distance to the end of the range, which is
-- enough since every round moves the cursor on.
--
-- Not modelled: the pages of classification decisions and their cursors; the serving of a bulk
-- request's cards by the gate and the handlers; the pages of a board's cards by content, and
-- attachments; the clients of other services and configuration; the handlers that Cards does not name,
-- and the decoding and encoding of all; database errors other than those that the operations handle by
-- name; requests and events that are served or fired at the same time, which here come one after the
-- other.
pub mod Prelude
pub mod Access
pub mod Timeline
pub mod TagRules
pub mod Boards
pub mod Classification
pub mod Arrivals
pub mod Messaging
pub mod Entities
pub mod Log
pub mod Tickets
pub mod SpendCeilings
pub mod Bulk
pub mod BoundedText
pub mod Cards
