-- ===== src/Daemon/Ids.antt =====
-- The loop that gives out an ID: `fetch_add` on an AtomicU64, which wraps, until the ID is vacant.
-- It stands twice in src/owner.rs, in `handle_interrupt_add` and in `handle_fd_register`.
use ulockmgr.Prelude.{
  ℕ, zero, suc, ◌+◌, ◌%◌, ◌^◌, ◌≤◌, ◌<◌, ◌≡◌, refl, Option, none, some, arith, length, inl, inr,
  Option-cases,
}
use ulockmgr.Prelude.Assoc.{Assoc, get, insert, remove, get-remove, length-remove-lt}

-- `AtomicU64::fetch_add(1)`: the counter after it.
unfoldable pub next_u64 : ℕ → ℕ
next_u64 n = (n + 1) % 2 ^ 64

-- What the loop leaves: the ID, the counter and the map.
pub record Given {ℓ} (V : Type ℓ) : Type ℓ where
  pub id : ℕ
  pub next_id : ℕ
  pub entries : Assoc V

module _ {ℓ} {V : Type ℓ} where
  -- `none`: the fuel ran out.
  unfoldable pub insert_vacant : ℕ → ℕ → V → Assoc V → Option (Given V)
  insert_vacant zero next v m = none
  insert_vacant (suc fuel) next v m =
      let rest = insert_vacant fuel (next_u64 next) v m in
      elim (get next m) [
        | none ↦ some (record { id = next; next_id = next_u64 next; entries = insert next v m })
        | some _ ↦ rest
      ]

-- The counter after `j` more calls.
after : ℕ → ℕ → ℕ
after n zero = n
after n (suc j) = after (next_u64 n) j

next_u64_lem : (n : ℕ) → next_u64 n ≡ (n + 1) % 2 ^ 64
unfolding next_u64
next_u64_lem n = refl

after-eq : (n j : ℕ) → n < 2 ^ 64 → after n j ≡ (n + j) % 2 ^ 64
unfolding after next_u64
after-eq n zero h = omega arith
after-eq n (suc j) h = omega (arith, after-eq ((n + 1) % 2 ^ 64) j)

module _ {ℓ} {V : Type ℓ} where
  still_vacant :
      (n j : ℕ) (m : Assoc V)
      → n < 2 ^ 64
      → j + 1 < 2 ^ 64
      → get (after (next_u64 n) j) (remove n m) ≡ none
      → get (after n (suc j)) m ≡ none
  unfolding after
  still_vacant n j m hn hj h = ground (
    arith,
    after-eq (next_u64 n) j (unfold next_u64 in omega arith),
    next_u64_lem n,
    get-remove n (after (next_u64 n) j) m,
  )

  finds :
      (fuel n j : ℕ) (v : V) (m : Assoc V)
      → j < fuel
      → get (after n j) m ≡ none
      → (g : Given V) × (insert_vacant fuel n v m ≡ some g)
  unfolding insert_vacant after
  finds zero n j v m lt e = absurd (omega arith)
  finds (suc fuel) n zero v m lt e =
      (record { id = n; next_id = next_u64 n; entries = insert n v m }, rw (e, insert_vacant))
  finds (suc fuel) n (suc j) v m lt e = elim (Option-cases (get n m)) [
    | inl q ↦
        (record { id = n; next_id = next_u64 n; entries = insert n v m }, rw (q, insert_vacant))
    | inr (_, q) ↦ rw (q, insert_vacant) (finds fuel (next_u64 n) j v m (omega arith) e)
  ]

  -- Among more candidates than the map has entries, one is vacant: the pigeonhole principle.
  some_vacant :
      (fuel n : ℕ) (m : Assoc V)
      → n < 2 ^ 64
      → length m < fuel
      → fuel ≤ 2 ^ 64
      → (j : ℕ) × (j < fuel) × (get (after n j) m ≡ none)
  some_vacant zero n m hn hl hf = absurd (omega arith)
  some_vacant (suc fuel) n m hn hl hf = elim (Option-cases (get n m)) [
    | inl e ↦ (0, omega arith, unfold after in e)
    | inr (v, e) ↦
        let (j, lt, vacant) =
          some_vacant fuel (next_u64 n) (remove n m) (unfold next_u64 in omega arith)
            (omega (arith, length-remove-lt n m (λ q. cc))) (omega arith) in
        (suc j, omega arith, still_vacant n j m hn (omega arith) vacant)
  ]

  -- The loop ends within as many rounds as the map has entries, and one more.
  pub insert_vacant-total :
      (fuel n : ℕ) (v : V) (m : Assoc V)
      → n < 2 ^ 64
      → length m < fuel
      → fuel ≤ 2 ^ 64
      → (g : Given V) × (insert_vacant fuel n v m ≡ some g)
  insert_vacant-total fuel n v m hn hl hf =
      let (j, lt, vacant) = some_vacant fuel n m hn hl hf in finds fuel n j v m lt vacant

  -- What it gives out was vacant, and is now taken by the value; nothing else is changed.
  pub insert_vacant_lem :
      (fuel n : ℕ) (v : V) (m : Assoc V) (g : Given V)
      → n < 2 ^ 64
      → insert_vacant fuel n v m ≡ some g
      → (get g.id m ≡ none) × (g.entries ≡ insert g.id v m) × (g.next_id < 2 ^ 64)
  unfolding insert_vacant next_u64
  insert_vacant_lem zero n v m g hn h = cc
  insert_vacant_lem (suc fuel) n v m g hn h =
      ground (arith, insert_vacant_lem fuel ((n + 1) % 2 ^ 64) v m g)

  -- And it fits 64 bits.
  pub insert_vacant-fits :
      (fuel n : ℕ) (v : V) (m : Assoc V) (g : Given V)
      → n < 2 ^ 64
      → insert_vacant fuel n v m ≡ some g
      → g.id < 2 ^ 64
  unfolding insert_vacant next_u64
  insert_vacant-fits zero n v m g hn h = cc
  insert_vacant-fits (suc fuel) n v m g hn h =
      ground (arith, insert_vacant-fits fuel ((n + 1) % 2 ^ 64) v m g)
