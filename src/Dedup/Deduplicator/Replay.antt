-- ===== src/Dedup/Deduplicator/Replay.antt =====
-- Replayed records, which carry a replay id, under the policies of dedup/deduplicator.py.
use kafka_reliability.Base.{String, ◌≡◌, refl, ◌∙◌, Bool, true, Option, none, some, [], ◌∷◌, ◌++◌}
use kafka_reliability.Base.Effect.{Result, ok, err, bind-ok}
use kafka_reliability.Core.Error.{Error}
use kafka_reliability.Core.Message.{Record, get_header, replay_id}
use kafka_reliability.Core.Utf8.{Bytes}
use kafka_reliability.Dedup.Store.{DedupStore}
use kafka_reliability.Dedup.Deduplicator.{
  Deduplicator, World, Mode, ReplayPolicy, bypass, namespace, suppress, Frame, passing, consume,
  block, enter, resolve_mode, replay_frame,
}

abbrev pub passed_reply : Option Error → Result Error Bool
passed_reply none = ok true
passed_reply (some e) = err e

module _ {S : Type 0} (st : DedupStore S) (self : Deduplicator) (r : Record) (k : String)
    (id : Bytes) (conn : Bool) (mode : Mode) (w : World S)
    (resolves : resolve_mode st self conn ≡ ok mode) (keyed : self.key r ≡ ok k)
    (replayed : get_header r.headers replay_id ≡ some id) where
  enter-replay_frame :
      enter st self r conn w ≡ replay_frame st self self.replay_policy mode k (some id) conn w
  unfolding enter
  enter-replay_frame = rw (resolves, keyed, replayed) refl

  bypass_frame : Frame
  bypass_frame = passing (record { result = none; reason = "replay_policy=bypass" })

  bypassed :
      (policy : ReplayPolicy)
      → policy ≡ bypass
      → replay_frame st self policy mode k (some id) conn w ≡ (ok bypass_frame, w)
  unfolding replay_frame bypass_frame
  bypassed bypass h = refl
  bypassed suppress h = absurd (cc)
  bypassed namespace h = absurd (cc)

  passes :
      (outcome : Option Error)
      → block st self r outcome bypass_frame w
        ≡ (passed_reply outcome, record w { handled = w.handled ++ r ∷ [] })
  unfolding block bypass_frame
  passes none = refl
  passes (some e) = refl

  -- Under the policy `bypass`, in any mode and over any store, a replayed record reaches the handler
  -- and nothing else happens: the store is not asked, nothing is reported, and the handler's end is
  -- the reply.
  pub consume-bypass :
      (outcome : Option Error)
      → self.replay_policy ≡ bypass
      → consume st self r conn outcome w
        ≡ (passed_reply outcome, record w { handled = w.handled ++ r ∷ [] })
  unfolding consume
  consume-bypass outcome policy =
      bind-ok (enter st self r conn) (block st self r outcome) w
        (enter-replay_frame ∙ bypassed self.replay_policy policy)
      ∙ passes outcome
