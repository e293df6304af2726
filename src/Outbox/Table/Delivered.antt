-- ===== src/Outbox/Table/Delivered.antt =====
-- At-least-once: a row of the table is published only once its message was sent.
use mathlib.Core.Path.{ap₂}
use kafka_reliability.Base.{
  ℕ, String, ◌≡◌, refl, sym, Bool, true, false, Bool-cases, inl, inr, List, [], ◌∷◌, ◌++◌, map, any,
  All, All-imp, All-map, Member, ◌==◌, string_eq,
}
use kafka_reliability.Core.Error.{Error}
use kafka_reliability.Core.Message.{OutgoingMessage}
use kafka_reliability.Outbox.Row.{RelayRow, to_message}
use kafka_reliability.Outbox.Table.{
  Row, published, relay_row, publish_rows, fail_rows, mark_row, note_failure,
}

unfoldable pub message_of : Row → OutgoingMessage
unfolding to_message
message_of row = to_message (relay_row row)

pub Member-append :
    (m : OutgoingMessage) (xs ys : List OutgoingMessage) → Member m xs → Member m (xs ++ ys)
Member-append m (x ∷ xs) ys (inl e) = inl e
Member-append m (x ∷ xs) ys (inr h) = inr (Member-append m xs ys h)
Member-append m [] ys h = absurd h

pub Member-last : (m : OutgoingMessage) (xs : List OutgoingMessage) → Member m (xs ++ m ∷ [])
Member-last m [] = inl refl
Member-last m (x ∷ xs) = inr (Member-last m xs)

abbrev pub IsDelivered : List Row → List OutgoingMessage → Type 0
IsDelivered rows sent = All (λ row. row.status ≡ published → Member (message_of row) sent) rows

-- What the relay leaves as it is: each row's id and message, in the table's order.
abbrev pub skeleton : List Row → List (String × OutgoingMessage)
skeleton = map λ row. (row.id, message_of row)

abbrev bone : Row → String × OutgoingMessage
bone row = (row.id, message_of row)

bone-mark_row : (now : ℕ) (ids : List String) (row : Row) → bone (mark_row now ids row) ≡ bone row
unfolding mark_row message_of
bone-mark_row now ids row = elim (Bool-cases (any (λ i. i == row.id) ids)) [
  | inl hit ↦ rw hit
  | inr miss ↦ rw miss
]

bone-note_failure :
    (id : String) (e : Error) (give_up : Bool) (row : Row)
    → bone (note_failure id e give_up row) ≡ bone row
unfolding note_failure message_of
bone-note_failure id e give_up row = elim (Bool-cases (row.id == id)) [
  | inl hit ↦ rw hit
  | inr miss ↦ rw miss
]

skeleton-map :
    (f : Row → Row) (rows : List Row)
    → ((row : Row) → bone (f row) ≡ bone row)
    → skeleton (map f rows) ≡ skeleton rows
skeleton-map f [] same = refl
skeleton-map f (row ∷ rows) same = ap₂ (λ b bs. b ∷ bs) (same row) (skeleton-map f rows same)

pub skeleton-publish_rows :
    (now : ℕ) (ids : List String) (rows : List Row)
    → skeleton (publish_rows now ids rows) ≡ skeleton rows
unfolding publish_rows
skeleton-publish_rows now ids rows = skeleton-map (mark_row now ids) rows (bone-mark_row now ids)

pub skeleton-fail_rows :
    (id : String) (e : Error) (give_up : Bool) (rows : List Row)
    → skeleton (fail_rows id e give_up rows) ≡ skeleton rows
unfolding fail_rows
skeleton-fail_rows id e give_up rows =
    skeleton-map (note_failure id e give_up) rows (bone-note_failure id e give_up)

-- A claimed row has the message of the row with its id.
abbrev pub Agrees : List (String × OutgoingMessage) → RelayRow → Type 0
Agrees sk r = All (λ e. e.0 ≡ r.id → e.1 ≡ to_message r) sk

abbrev Backed : List OutgoingMessage → Row → Type 0
Backed sent row = row.status ≡ published → Member (message_of row) sent

Backed-note_failure :
    (id : String) (e : Error) (give_up : Bool) (row : Row) (sent : List OutgoingMessage)
    → Backed sent row
    → Backed sent (note_failure id e give_up row)
unfolding note_failure message_of
Backed-note_failure id e true row sent h = elim (Bool-cases (row.id == id)) [
  | inl hit ↦ rw hit (λ done. absurd (cc))
  | inr miss ↦ rw miss h
]
Backed-note_failure id e false row sent h = elim (Bool-cases (row.id == id)) [
  | inl hit ↦ rw hit h
  | inr miss ↦ rw miss h
]

pub IsDelivered-fail_rows :
    (id : String) (e : Error) (give_up : Bool) (rows : List Row) (sent : List OutgoingMessage)
    → IsDelivered rows sent
    → IsDelivered (fail_rows id e give_up rows) sent
unfolding fail_rows
IsDelivered-fail_rows id e give_up rows sent h =
    All-map (Backed sent) (note_failure id e give_up) rows
      (All-imp (Backed sent) _ rows (λ row. Backed-note_failure id e give_up row sent) h)

-- The rows that were sent may be marked.
sent_by_id :
    (row : Row) (rs : List RelayRow) (sent : List OutgoingMessage)
    → All (λ r. row.id ≡ r.id → message_of row ≡ to_message r) rs
    → All (λ r. Member (to_message r) sent) rs
    → any (λ i. i == row.id) (map (λ r. r.id) rs) ≡ true
    → Member (message_of row) sent
sent_by_id row [] sent a s h = absurd (cc)
sent_by_id row (r ∷ rs) sent a s h = elim (Bool-cases (r.id == row.id)) [
  | inl hit ↦ rw (a.0 (sym ((string_eq.equals_iff r.id row.id).0 hit))) s.0
  | inr miss ↦ sent_by_id row rs sent a.1 s.1 (rw miss at h)
]

Backed-mark_row :
    (now : ℕ) (rs : List RelayRow) (row : Row) (sent : List OutgoingMessage)
    → All (λ r. row.id ≡ r.id → message_of row ≡ to_message r) rs
    → All (λ r. Member (to_message r) sent) rs
    → Backed sent row
    → Backed sent (mark_row now (map (λ r. r.id) rs) row)
unfolding mark_row message_of
Backed-mark_row now rs row sent a s h =
    elim (Bool-cases (any (λ i. i == row.id) (map (λ (r : RelayRow). r.id) rs))) [
      | inl hit ↦ rw hit (λ done. sent_by_id row rs sent a s hit)
      | inr miss ↦ rw miss h
    ]

-- Each claimed row agrees with the table: turned round, each row with the claimed ones.
Agrees-by_row :
    (row : Row) (rows : List Row) (rs : List RelayRow)
    → All (Agrees (skeleton (row ∷ rows))) rs
    → All (λ r. row.id ≡ r.id → message_of row ≡ to_message r) rs
Agrees-by_row row rows rs = All-imp _ _ rs (λ r a. a.0)

Agrees-rest :
    (row : Row) (rows : List Row) (rs : List RelayRow)
    → All (Agrees (skeleton (row ∷ rows))) rs
    → All (Agrees (skeleton rows)) rs
Agrees-rest row rows rs = All-imp _ _ rs (λ r a. a.1)

pub IsDelivered-publish_rows :
    (now : ℕ) (rs : List RelayRow) (rows : List Row) (sent : List OutgoingMessage)
    → All (Agrees (skeleton rows)) rs
    → All (λ r. Member (to_message r) sent) rs
    → IsDelivered rows sent
    → IsDelivered (publish_rows now (map (λ r. r.id) rs) rows) sent
unfolding publish_rows
IsDelivered-publish_rows now rs [] sent a s h = tt
IsDelivered-publish_rows now rs (row ∷ rows) sent a s h = (
  Backed-mark_row now rs row sent (Agrees-by_row row rows rs a) s h.0,
  IsDelivered-publish_rows now rs rows sent (Agrees-rest row rows rs a) s h.1,
)
