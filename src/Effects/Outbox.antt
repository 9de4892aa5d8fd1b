-- ===== src/Effects/Outbox.antt =====
-- The outbox of effects.py: `pending_outbox` and `mark_outbox_published`.
use finite_agent_physics.Prelude.{
  ℕ, zero, suc, String, not, ◌&&◌, some, List, [], ◌∷◌, elem, is_some, leb, ◌=ˢ◌, if◌then◌else◌,
  gets, raise_if, ◌>>=◌, ◌>>◌,
}
use finite_agent_physics.Effects.Types.{OutboxEvent, Platform, value_error, key_error}
use finite_agent_physics.Effects.Database.{Kernel, transaction, change, event_ids, read_clock}

-- `WHERE published_at_ms IS NULL`; the rows stand in the order of their sequence numbers.
unfoldable pub pending : List OutboxEvent → List OutboxEvent
pending [] = []
pending (e ∷ es) = let rest = pending es in if is_some e.published_at_ms then rest else e ∷ rest

-- `LIMIT`
unfoldable pub limit_rows : ℕ → List OutboxEvent → List OutboxEvent
limit_rows zero es = []
limit_rows (suc n) [] = []
limit_rows (suc n) (e ∷ es) = e ∷ limit_rows n es

unfoldable pub pending_outbox : ℕ → Kernel (List OutboxEvent)
unfolding pending limit_rows
pending_outbox limit = do
  raise_if (leb limit 0) value_error
  gets (λ w. limit_rows limit (pending w.database.outbox))

-- `UPDATE effect_outbox SET published_at_ms = ? WHERE event_id = ? AND published_at_ms IS NULL`
unfoldable pub publish : String → ℕ → List OutboxEvent → List OutboxEvent
publish k now [] = []
publish k now (e ∷ es) =
    (if k =ˢ e.event_id && not (is_some e.published_at_ms)
      then record e { published_at_ms = some now }
      else e)
    ∷ publish k now es

-- `KeyError` where no row was updated and none has the id, that is where none has the id.
unfoldable pub acknowledge : String → ℕ → Kernel (Unit {0})
unfolding publish
acknowledge k now = do
  change (λ d. record d { outbox = publish k now d.outbox })
  present ← gets (λ w. elem k (event_ids w.database.outbox))
  raise_if (not present) key_error

unfoldable pub mark_outbox_published : Platform → String → Kernel (Unit {0})
unfolding acknowledge
mark_outbox_published p k = transaction (read_clock p >>= acknowledge k)
