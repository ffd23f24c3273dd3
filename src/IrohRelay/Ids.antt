-- ===== src/IrohRelay/Ids.antt =====
-- The stream ids that the managers at the two ends take.
use peerscale.Prelude.{
  ℕ, zero, suc, ◌+◌, ◌-◌, ◌*◌, ◌%◌, ◌^◌, ◌<◌, ◌≡◌, ◌≢◌, refl, ltb, if◌then◌else◌, arith,
}
use peerscale.IrohRelay.Streams.{Manager, new_manager, alloc_id, or_bit, stream_id_base}

-- The manager when `n` ids have been taken, and the id that is taken next.
abbrev pub after_ids : ℕ → Manager → Manager
after_ids zero m = m
after_ids (suc n) m = after_ids n (alloc_id m).1

abbrev pub id_at : ℕ → Manager → ℕ
id_at n m = (alloc_id (after_ids n m)).0

module _ (bit : ℕ) where
  counts :
      (n : ℕ) (m : Manager)
      → m.odd_bit ≡ bit
      → m.next_id + 2 * n < 2 ^ 64
      → ((after_ids n m).next_id ≡ m.next_id + 2 * n) × ((after_ids n m).odd_bit ≡ bit)
  unfolding alloc_id
  counts zero m b l = (omega arith, b)
  counts (suc n) m b l =
      let step : (m.next_id + 2) % 2 ^ 64 ≡ m.next_id + 2 = omega arith in
      let (next, same) = counts n (alloc_id m).1 b (omega (arith, step)) in
      (omega (arith, next, step), same)

  id_at_lem :
      (n : ℕ) (m : Manager)
      → m.odd_bit ≡ bit
      → m.next_id ≡ stream_id_base
      → n < 2 ^ 63 - 500
      → id_at n m ≡ or_bit (stream_id_base + 2 * n) bit
  unfolding alloc_id
  id_at_lem n m b start l =
      let (next, same) = counts n m b (omega arith) in rw (next, same, start) refl

first_id :
    (local remote n : ℕ)
    → n < 2 ^ 63 - 500
    → id_at n (new_manager local remote)
      ≡ or_bit (stream_id_base + 2 * n) (if ltb local remote then 1 else 0)
unfolding new_manager
first_id local remote n l =
    id_at_lem (if ltb local remote then 1 else 0) n (new_manager local remote) refl refl l

-- Of the first 2 ^ 63 - 500 ids that one manager takes, counted from when it is made, no two are the
-- same, and none is among the first 2 ^ 63 - 500 that a manager of the other, different peer takes
-- for the way back.
pub id_at-new_manager-apart :
    (a b i j : ℕ)
    → a ≢ b
    → i < 2 ^ 63 - 500
    → j < 2 ^ 63 - 500
    → (id_at i (new_manager a b) ≢ id_at j (new_manager b a))
      × (i ≢ j → id_at i (new_manager a b) ≢ id_at j (new_manager a b))
id_at-new_manager-apart a b i j apart k l = (
  λ e. ground (arith, e, first_id a b i k, first_id b a j l),
  λ ne e. ground (arith, e, ne, first_id a b i k, first_id a b j l),
)
