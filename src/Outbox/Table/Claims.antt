-- ===== src/Outbox/Table/Claims.antt =====
-- Which rows a claim of outbox/backends/asyncpg_relay.py returns.
use kafka_reliability.Base.{
  ℕ, String, ◌≡◌, refl, sym, ◌≢◌, Bool-cases, inl, inr, List, [], ◌∷◌, map, pair_eq, nat_eq, All,
  All-keep, All-take, All-imp, All-map, leb,
}
use kafka_reliability.Core.Message.{OutgoingMessage}
use kafka_reliability.Base.Int.{int_eq, ℤ}
use kafka_reliability.Outbox.Table.{
  Row, relay_row, order_by_seq, insert_by_seq, claimable, is_claimable,
}
use kafka_reliability.Outbox.Table.Delivered.{Agrees, message_of, skeleton}

-- The ids of a table are distinct: its primary key.
abbrev pub HasKey : List (String × OutgoingMessage) → Type 0
HasKey [] = Unit
HasKey (e ∷ sk) = All (λ x. x.0 ≢ e.0) sk × HasKey sk

abbrev Determines : List (String × OutgoingMessage) → String × OutgoingMessage → Type 0
Determines sk e = All (λ x. x.0 ≡ e.0 → x.1 ≡ e.1) sk

All-and :
    {A : Type 0} (P Q : A → Type 0) (xs : List A) → All P xs → All Q xs → All (λ x. P x × Q x) xs
All-and P Q [] p q = tt
All-and P Q (x ∷ xs) p q = ((p.0, q.0), All-and P Q xs p.1 q.1)

HasKey-Determines : (sk : List (String × OutgoingMessage)) → HasKey sk → All (Determines sk) sk
HasKey-Determines [] h = tt
HasKey-Determines (e ∷ sk) (fresh, h) = (
  ((λ _. refl), All-imp _ _ sk (λ x other same. absurd (other same)) fresh),
  All-imp _ _ sk (λ x both. ((λ same. absurd (both.0 (sym same))), both.1))
      (All-and (λ x. x.0 ≢ e.0) (Determines sk) sk fresh (HasKey-Determines sk h)),
)

All-unmap :
    {A B : Type 0} (P : B → Type 0) (f : A → B) (xs : List A)
    → All P (map f xs)
    → All (λ x. P (f x)) xs
All-unmap P f [] h = tt
All-unmap P f (x ∷ xs) h = (h.0, All-unmap P f xs h.1)

module _ (P : Row → Type 0) where
  pub All-insert_by_seq :
      (row : Row) (rows : List Row) → P row → All P rows → All P (insert_by_seq row rows)
  unfolding insert_by_seq
  All-insert_by_seq row [] p h = (p, tt)
  All-insert_by_seq row (r ∷ rows) p h = elim (Bool-cases (leb row.seq r.seq)) [
    | inl first ↦ rw first (p, h)
    | inr later ↦ rw later (h.0, All-insert_by_seq row rows p h.1)
  ]

  pub All-order_by_seq : (rows : List Row) → All P rows → All P (order_by_seq rows)
  unfolding order_by_seq
  All-order_by_seq [] h = tt
  All-order_by_seq (row ∷ rows) h =
      All-insert_by_seq row (order_by_seq rows) h.0 (All-order_by_seq rows h.1)

  pub All-claimable :
      (hash : String → ℤ) (limit count index : ℕ) (table rows : List Row)
      → All P table
      → All P (claimable hash limit count index table)
  unfolding claimable
  All-claimable hash limit count index table rows h =
      All-take P limit _
        (All-order_by_seq _ (All-keep P (is_claimable hash count index table) table h))

pub Agrees-claimed :
    (hash : String → ℤ) (limit count index : ℕ) (rows : List Row)
    → HasKey (skeleton rows)
    → All (Agrees (skeleton rows)) (map relay_row (claimable hash limit count index rows))
unfolding message_of
Agrees-claimed hash limit count index rows h = All-map (Agrees (skeleton rows)) relay_row _ (
    All-claimable (λ row. Agrees (skeleton rows) (relay_row row)) hash limit count index rows rows
      (All-unmap (Determines (skeleton rows)) _ rows (HasKey-Determines (skeleton rows) h)))
