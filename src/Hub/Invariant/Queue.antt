-- ===== src/Hub/Invariant/Queue.antt =====
-- dspi.cpp: the queue keeps its size, and never holds two requests of one identity.
use esphome_dspi.Prelude.{
  ℕ, zero, suc, List, [], ◌∷◌, set, length, length-set, ◌≡◌, refl, ap, arith,
}
use esphome_dspi.Prelude.{some, ◌∙◌}
use esphome_dspi.Hub.Transaction.{Transaction}
use esphome_dspi.Hub.Queue.{Queue, enqueue, find_next, queue_depth}
use esphome_dspi.Hub.Queue.Distinct.{Apart, IsDistinct, enqueue-IsDistinct, length-enqueue}
use esphome_dspi.Hub.State.{DspiHub}
use esphome_dspi.Hub.Transport.{clear_queue}
use esphome_dspi.Hub.Loop.{released, loop}
use esphome_dspi.Hub.Invariant.Passes.{loop-kept}

-- As many slots as the array has, and no two waiting requests of the same identity.
unfoldable pub IsValid : Queue → Type 0
IsValid q = (length q ≡ queue_depth) × IsDistinct q

length-clear_queue : (q : Queue) → length (clear_queue q) ≡ length q
unfolding clear_queue
length-clear_queue [] = refl
length-clear_queue (s ∷ q) = ap suc (length-clear_queue q)

Apart-clear_queue : (s : Transaction) (q : Queue) → Apart s (clear_queue q)
unfolding clear_queue
Apart-clear_queue s [] = tt
Apart-clear_queue s (t ∷ q) = (ground arith, Apart-clear_queue s q)

clear_queue-IsDistinct : (q : Queue) → IsDistinct (clear_queue q)
unfolding clear_queue
clear_queue-IsDistinct [] = tt
clear_queue-IsDistinct (s ∷ q) = (Apart-clear_queue (released s) q, clear_queue-IsDistinct q)

Apart-released :
    (s t : Transaction) (q : Queue) (i : ℕ) → Apart s q → Apart s (set q i (released t))
Apart-released s t [] i a = tt
Apart-released s t (u ∷ q) zero a = (ground arith, a.1)
Apart-released s t (u ∷ q) (suc i) a = (a.0, Apart-released s t q i a.1)

released-Apart : (t : Transaction) (q : Queue) → Apart (released t) q
released-Apart t [] = tt
released-Apart t (u ∷ q) = (ground arith, released-Apart t q)

set-released-IsDistinct :
    (t : Transaction) (q : Queue) (i : ℕ) → IsDistinct q → IsDistinct (set q i (released t))
set-released-IsDistinct t [] i d = tt
set-released-IsDistinct t (u ∷ q) zero d = (released-Apart t q, d.1)
set-released-IsDistinct t (u ∷ q) (suc i) d =
    (Apart-released u t q i d.0, set-released-IsDistinct t q i d.1)

pub enqueue-IsValid : (t : Transaction) (q : Queue) → IsValid q → IsValid (enqueue t q).queue
unfolding IsValid
enqueue-IsValid t q (l, d) = (length-enqueue t q ∙ l, enqueue-IsDistinct t q d)

clear_queue-IsValid : (q : Queue) → IsValid q → IsValid (clear_queue q)
unfolding IsValid
clear_queue-IsValid q (l, d) = (length-clear_queue q ∙ l, clear_queue-IsDistinct q)

taken-IsValid :
    (q : Queue) (i : ℕ) (t : Transaction)
    → find_next q ≡ some (i, t)
    → IsValid q
    → IsValid (set q i (released t))
unfolding IsValid
taken-IsValid q i t e (l, d) = (length-set q i (released t) ∙ l, set-released-IsDistinct t q i d)

-- A pass of `loop` over any bytes keeps the queue well formed: it has its twelve slots, and no two
-- waiting requests have the same opcode, frame type and `wvalue`.
pub loop-queue-IsValid :
    (h : DspiHub) (now : ℕ) (bytes : List ℕ) → IsValid h.queue → IsValid (loop h now bytes).0.queue
loop-queue-IsValid = loop-kept IsValid enqueue-IsValid clear_queue-IsValid taken-IsValid
