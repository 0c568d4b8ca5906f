-- ===== src/Request/Tests.antt =====
-- Runs of the request list.
use linux_0_11_learning.Base.{
  ℕ, ◌≤◌, ◌≡◌, inl, inr, refl, Bool, true, false, List, [], ◌∷◌, arith, ltb,
}
use linux_0_11_learning.Request.{Request, Buffer, Command, in_order, add_request, make_request}
use linux_0_11_learning.Request.Order.{IsApart, turns, add_request-elevator}
use linux_0_11_learning.Request.Table.{Outcome, make_request-Outcome}

abbrev read_at : ℕ → Request
read_at sector = record { slot = 0; dev = 0x300; cmd = 0; sector = sector; nr_sectors = 2; bh = 0 }

-- The arm is on its way up from 40 and turns back once, to 10.
abbrev queue : List Request
queue = read_at 40 ∷ read_at 60 ∷ read_at 10 ∷ []

add_request-run :
    add_request (read_at 50) queue ≡ (read_at 40 ∷ read_at 50 ∷ read_at 60 ∷ read_at 10 ∷ [], false)
unfolding add_request
add_request-run = refl

queue-IsApart : IsApart (read_at 50) queue
unfolding in_order
queue-IsApart = (inl refl, (inr refl, (inl refl, tt)))

turns-queue : turns queue ≤ 1
unfolding turns in_order
turns-queue = omega arith

add_request-elevator_example : turns (add_request (read_at 50) queue).0 ≤ 1
add_request-elevator_example = add_request-elevator (read_at 50) queue queue-IsApart turns-queue

abbrev dirty : Buffer
dirty = record {
  number = 3;
  b_dev = 0x300;
  b_blocknr = 25;
  b_uptodate = true;
  b_dirt = true;
  b_lock = false;
}

abbrev low_slots : ℕ → Bool
low_slots slot = ltb slot 4

make_request-Outcome_example :
    Outcome Command.write_cmd dirty low_slots queue
      (make_request Command.write_cmd dirty low_slots queue)
make_request-Outcome_example = make_request-Outcome Command.write_cmd dirty low_slots queue
