-- ===== src/Hub/Transport/Overwrite.antt =====
-- dspi.cpp: a retry that meets a newer request of the same identity in the queue.
use esphome_dspi.Prelude.{◌+◌, ◌<◌, ◌≡◌, refl, arith, ap, ◌∙◌, true, some, inl, inr, Option-cases}
use esphome_dspi.Hub.Transaction.{Transaction}
use esphome_dspi.Hub.Queue.{Queue, enqueue, coalesce, merged, same_request}
use esphome_dspi.Hub.Queue.Refine.{pending, pending-coalesce, coalesce-none-pending}
use esphome_dspi.Hub.State.{DspiHub}
use esphome_dspi.Hub.Transport.{retry_or_drop, retry_limit}
use esphome_dspi.Hub.Transport.Budget.{retry_or_drop-retries}

same_request_self : (t : Transaction) → same_request t t ≡ true
same_request_self t = ground arith

-- A request that meets one of its own identity is folded into it, whether a slot is free or not.
enqueue-folds :
    (txn newer : Transaction) (q : Queue)
    → pending txn q ≡ some newer
    → pending txn (enqueue txn q).queue ≡ some (merged newer txn)
unfolding enqueue
enqueue-folds txn newer q e = elim (Option-cases (coalesce txn q)) [
  | inl n ↦ cc (coalesce-none-pending txn q n)
  | inr (q', f) ↦ simp (f, pending-coalesce txn txn q q' f, same_request_self txn, e) refl
]

-- A try fails while a newer request with the same opcode, frame type and wValue waits, say a later
-- value for the same control: the retry takes the newer request's place. What waits afterwards
-- carries the older payload, and the newer payload is gone.
pub retry_or_drop-overwrites :
    (h : DspiHub) (newer : Transaction)
    → h.link.has_current ≡ true
    → h.link.current.attempts < retry_limit h h.link.current
    → h.link.current.attempts < 255
    → pending h.link.current h.queue ≡ some newer
    → (kept : Transaction) × (pending h.link.current (retry_or_drop h).queue ≡ some kept)
      × (kept.payload ≡ h.link.current.payload)
      × (kept.payload_len ≡ h.link.current.payload_len)
      × (h.link.current.attempts < kept.attempts)
retry_or_drop-overwrites h newer busy more small waits =
    let again = record (h.link.current) { attempts = h.link.current.attempts + 1 } in
    let q = (retry_or_drop-retries h busy more small).2 in
    (
      merged newer again,
      ap (pending again) q ∙ enqueue-folds again newer h.queue waits,
      refl,
      refl,
      ground arith,
    )
