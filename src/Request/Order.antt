-- ===== src/Request/Order.antt =====
-- The elevator: where `add_request` puts a request.
use mathlib.Core.List.{Perm}
use mathlib.Core.List.Perm
use linux_0_11_learning.Base.{
  ℕ, ◌+◌, ◌≤◌, ◌≡◌, ◌⊎◌, inl, inr, refl, true, false, List, [], ◌∷◌, arith, ◌&&◌, ◌||◌, not,
  if◌then◌else◌, Bool-cases, ◌↔◌, Option, none, some,
}
use linux_0_11_learning.Request.{Request, in_order, place, add_request}

-- `IN_ORDER` is a strict order.
pub in_order_irrefl : (s : Request) → in_order s s ≡ false
unfolding in_order
in_order_irrefl s = ground arith

pub in_order_trans :
    (s t u : Request) → in_order s t ≡ true → in_order t u ≡ true → in_order s u ≡ true
unfolding in_order
in_order_trans s t u h k = ground arith

place-perm :
    (req tmp : Request) (rest : List Request) → Perm (place req tmp rest) (req ∷ tmp ∷ rest)
unfolding place
place-perm req tmp [] = Perm.swap req tmp []
place-perm req tmp (next ∷ rest) =
    elim (Bool-cases ((in_order tmp req || not (in_order tmp next)) && in_order req next)) [
      | inl here ↦ rw here (Perm.swap req tmp (next ∷ rest))
      | inr further ↦
          rw further (
            Perm.trans (Perm.cons tmp (place-perm req next rest)) (Perm.swap req tmp (next ∷ rest)))
    ]

-- How often the list turns back: a request that does not come after the one before it.
unfoldable pub turns : List Request → ℕ
turns [] = 0
turns (s ∷ []) = 0
turns (s ∷ t ∷ l) = (if in_order s t then 0 else 1) + turns (t ∷ l)

-- The request is for another place than each of the list.
abbrev pub IsApart : Request → List Request → Type 0
IsApart req [] = Unit {0}
IsApart req (s ∷ l) = ((in_order s req ≡ true) ⊎ (in_order req s ≡ true)) × IsApart req l

-- The first request of the list stays the first.
turns-cons_place :
    (s req tmp : Request) (rest : List Request)
    → turns (s ∷ place req tmp rest)
      ≡ (if in_order s tmp then 0 else 1) + turns (place req tmp rest)
unfolding place turns
turns-cons_place s req tmp [] = refl
turns-cons_place s req tmp (next ∷ rest) =
    elim (Bool-cases ((in_order tmp req || not (in_order tmp next)) && in_order req next)) [
      | inl here ↦ rw here
      | inr further ↦ rw further
    ]

-- Behind a request that comes before it, in a list that does not turn, the new one finds its place.
turns-place_behind :
    (req tmp : Request) (rest : List Request)
    → IsApart req rest
    → turns (tmp ∷ rest) ≡ 0
    → in_order tmp req ≡ true
    → turns (place req tmp rest) ≡ 0
unfolding place turns
turns-place_behind req tmp [] apart up behind = ground arith
turns-place_behind req tmp (next ∷ rest) apart up behind = ground (
  arith,
  turns-cons_place tmp req next rest,
  turns-place_behind req next rest apart.1,
  in_order_trans tmp req next,
)

turns-place_up :
    (req tmp : Request) (rest : List Request)
    → IsApart req rest
    → turns (tmp ∷ rest) ≡ 0
    → turns (place req tmp rest) ≤ 1
unfolding place turns
turns-place_up req tmp [] apart up = ground arith
turns-place_up req tmp (next ∷ rest) apart up =
    ground (arith, turns-cons_place tmp req next rest, turns-place_up req next rest apart.1)

turns-place_once :
    (req tmp : Request) (rest : List Request)
    → IsApart req rest
    → turns (tmp ∷ rest) ≡ 1
    → turns (place req tmp rest) ≤ 1
unfolding place turns
turns-place_once req tmp [] apart once = ground arith
turns-place_once req tmp (next ∷ rest) apart once = ground (
  arith,
  turns-cons_place tmp req next rest,
  turns-place_once req next rest apart.1,
  turns-place_behind req next rest apart.1,
  in_order_trans tmp req next,
  in_order_trans req next tmp,
  in_order_trans tmp next req,
)

-- The request in service, if there is one.
abbrev pub first : List Request → Option Request
first [] = none
first (s ∷ l) = some s

place-first : (req tmp : Request) (rest : List Request) → first (place req tmp rest) ≡ some tmp
unfolding place
place-first req tmp [] = refl
place-first req tmp (next ∷ rest) =
    elim (Bool-cases ((in_order tmp req || not (in_order tmp next)) && in_order req next)) [
      | inl here ↦ rw here
      | inr further ↦ rw further
    ]

-- `add_request` adds the request and loses none, and never puts it before the request in service;
-- it starts the device exactly if the list was empty.
pub add_request-perm :
    (req : Request) (queue : List Request)
    → let (queue', started) = add_request req queue in
      Perm queue' (req ∷ queue)
      × (first queue' ≡ (if started then some req else first queue))
      × ((started ≡ true) ↔ (queue ≡ []))
unfolding add_request
add_request-perm req [] = (Perm.refl (req ∷ []), refl, (λ _. refl, λ _. refl))
add_request-perm req (tmp ∷ rest) = (
  place-perm req tmp rest,
  place-first req tmp rest,
  (λ e. absurd (ground arith), λ e. absurd (ground arith)),
)

-- A list that turns back at most once, as an elevator does, still does after `add_request`, if no
-- request of it is for the new one's place.
pub add_request-elevator :
    (req : Request) (queue : List Request)
    → IsApart req queue
    → turns queue ≤ 1
    → turns (add_request req queue).0 ≤ 1
unfolding add_request turns
add_request-elevator req [] apart once = omega arith
add_request-elevator req (tmp ∷ rest) apart once =
    ground (arith, turns-place_up req tmp rest apart.1, turns-place_once req tmp rest apart.1)
