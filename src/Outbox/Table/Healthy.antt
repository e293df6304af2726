-- ===== src/Outbox/Table/Healthy.antt =====
-- A pass over the table while the connection lasts and the producer refuses nothing.
use kafka_reliability.Base.{
  ℕ, String, ◌≡◌, refl, sym, ap, ◌∙◌, true, false, none, some, List, [], ◌∷◌, ◌++◌, map, any, ltb,
  length, ◌==◌, string_eq, pair_eq, nat_eq,
}
use kafka_reliability.Base.Effect.{ok}
use kafka_reliability.Core.Message.{OutgoingMessage}
use kafka_reliability.Core.Metrics.{Event}
use kafka_reliability.Producers.{in_memory}
use kafka_reliability.Base.Int.{int_eq, ℤ}
use kafka_reliability.Outbox.Config.{RelayConfig, lock_key, lock_shard}
use kafka_reliability.Outbox.Row.{RelayRow, to_message, group_by_key}
use kafka_reliability.Outbox.Row.Totals.{total-group_by_key}
use kafka_reliability.Outbox.Relay.{OutboxStats, run_once}
use kafka_reliability.Outbox.Relay.Healthy.{concat, mark_group, mark_groups, run_once-healthy}
use kafka_reliability.Outbox.Table.{
  Row, Session, LockId, relay_row, relay_store, claimable, claim, acquire_leadership, try_lock,
  remember, mark_published, publish_rows, stats,
}
use kafka_reliability.Outbox.Table.Marks.{
  any-total, id_of, map-append, named, publish_rows-append, publish_rows-nil, publish_rows-same,
  total-concat,
}

module _ (self : RelayConfig) (crc32 : String → ℕ) (hash : String → ℤ) (table : String) (now : ℕ)
    (own others : List LockId) (failed : List OutgoingMessage) (flush_count : ℕ) where
  -- A session that leads, over a connection that lasts.
  abbrev leading : List Row → Session
  leading rows = record {
    rows = rows;
    now = now;
    held = some (lock_key crc32 self table, lock_shard self);
    own = (lock_key crc32 self table, lock_shard self) ∷ own;
    others = others;
    closed = false;
    fates = [];
  }

  marks :
      (ids : List String) (rows : List Row)
      → mark_published ids (leading rows) ≡ (ok tt, leading (publish_rows now ids rows))
  unfolding mark_published
  marks ids rows = refl

  abbrev mark_all : List (List RelayRow) → List Row → List Row
  mark_all =
      mark_groups (relay_store hash table) self leading (publish_rows now) marks failed flush_count

  abbrev mark_one : List RelayRow → List Row → List Row
  mark_one =
      mark_group (relay_store hash table) self leading (publish_rows now) marks failed flush_count

  mark_one-publish_rows :
      (g : List RelayRow) (rows : List Row) → mark_one g rows ≡ publish_rows now (map id_of g) rows
  mark_one-publish_rows [] rows = sym (publish_rows-nil now rows)
  mark_one-publish_rows (r ∷ rs) rows = refl

  mark_all-publish_rows :
      (groups : List (List RelayRow)) (rows : List Row)
      → mark_all groups rows ≡ publish_rows now (map id_of (concat groups)) rows
  mark_all-publish_rows [] rows = sym (publish_rows-nil now rows)
  mark_all-publish_rows (g ∷ gs) rows =
      mark_all-publish_rows gs (mark_one g rows)
      ∙ (ap (publish_rows now (map id_of (concat gs))) (mark_one-publish_rows g rows)
          ∙ (publish_rows-append now (map id_of g) (map id_of (concat gs)) rows
              ∙ ap (λ ids. publish_rows now ids rows) (sym (map-append g (concat gs)))))

  -- The groups name the ids that were claimed.
  mark_all-claimed :
      (rs : List RelayRow) (rows : List Row)
      → mark_all (group_by_key rs) rows ≡ publish_rows now (map id_of rs) rows
  mark_all-claimed rs rows =
      mark_all-publish_rows (group_by_key rs) rows
      ∙ publish_rows-same now _ _ rows (λ id.
        any-total id (concat (group_by_key rs))
        ∙ (ap (ltb 0) (total-concat (named id) (group_by_key rs) ∙ total-group_by_key (named id) rs)
            ∙ sym (any-total id rs)))

  abbrev waiting : List Row → Session
  waiting rows = record (leading rows) { held = none; own = own }

  leads :
      (rows : List Row)
      → any (λ l. l == (lock_key crc32 self table, lock_shard self)) others ≡ false
      → acquire_leadership (lock_key crc32 self table) (lock_shard self) (waiting rows)
        ≡ (ok true, leading rows)
  unfolding acquire_leadership try_lock remember
  leads rows free = rw free refl

  claims :
      (rows : List Row)
      → claim hash self.batch_size self.shard_count self.shard_index (leading rows) ≡ (
        ok (map relay_row (claimable hash self.batch_size self.shard_count self.shard_index rows)),
        leading rows,
      )
  unfolding claim
  claims rows = refl

  measured : (rows : List Row) → (x : OutboxStats) × (stats (leading rows) ≡ (ok x, leading rows))
  unfolding stats
  measured rows = (_, refl)

  -- A pass of a relay whose lock nobody holds, over a connection that lasts and with a client that
  -- refuses nothing, takes the lock and publishes every row that it claims: their messages are sent
  -- in the order of the groups behind those sent before, the rows are marked, no other row changes,
  -- and the result counts them all as published.
  pub healthy_pass :
      (rows : List Row) (sent : List OutgoingMessage) (events : List Event)
      → any (λ l. l == (lock_key crc32 self table, lock_shard self)) others ≡ false
      → let rs =
          map relay_row (claimable hash self.batch_size self.shard_count self.shard_index rows) in
        (x : OutboxStats) × ((events' : List Event) × (run_once
              (relay_store hash table)
              in_memory
              self
              crc32
              (record {
                store = waiting rows;
                producer = record {
                  sent = sent;
                  failed = failed;
                  to_fail = 0;
                  fail_rule = none;
                  flush_count = flush_count;
                };
                events = events;
              })
            ≡ (
              ok (record {
                leader = true;
                claimed = length rs;
                published = length rs;
                retried = 0;
                failed = 0;
                stats = some x;
              }),
              record {
                store = leading (publish_rows now (map (λ r. r.id) rs) rows);
                producer = record {
                  sent = sent ++ map to_message (concat (group_by_key rs));
                  failed = failed;
                  to_fail = 0;
                  fail_rule = none;
                  flush_count = flush_count;
                };
                events = events';
              },
            )))
  healthy_pass rows sent events free =
      let rs =
        map relay_row (claimable hash self.batch_size self.shard_count self.shard_index rows) in
      let (x, told) = measured (mark_all (group_by_key rs) rows) in
      let (events', ends) =
        run_once-healthy (relay_store hash table) self leading (publish_rows now) marks failed
          flush_count crc32 (waiting rows) rows rs x (leads rows free) (claims rows) told sent
          events in
      (x, (events', rw⁻¹ (mark_all-claimed rs rows) ends))
