-- ===== src/Kernel/Sched/Fair.antt =====
-- One `sched_select` of kernel/sched.c after the other: each thread that can run has its turn.
use levos.Prelude.{
  ℕ, zero, suc, ◌+◌, ◌-◌, ◌%◌, ◌≤◌, ◌<◌, ◌≡◌, refl, ap, arith, List, [], ◌∷◌, false, ◌==◌,
  Bool-cases, inl, inr, get_or,
}
use levos.Prelude.Outcome.{Outcome, ok, ◌>>=◌}
use levos.Kernel.Sched.{Sched, thread_queue_size, passed_over, sched_select}
use levos.Kernel.Sched.Select.{slot, looked_at, sched_select-first}

-- Thread `t` can run, and stands in slot `p` of the queue.
pub record Waits (t p : ℕ) (st : Sched) : Type 0 where
  pub here : get_or st.thread_queue p 0 ≡ t
  pub runs : passed_over t st ≡ false

-- What happens between two calls, `k` of which are left, changes anything but the slot that is looked at next:
-- threads come, go, and change their state, while `t` can run and keeps its slot.
pub record LeavesWaiting (t p : ℕ) (between : ℕ → Sched → Sched) : Type 0 where
  pub next : (k : ℕ) (st : Sched) → (between k st).sched_next ≡ st.sched_next
  pub waits : (k : ℕ) (st : Sched) → Waits t p st → Waits t p (between k st)

-- The thread is the last of the list.
pub data Last (t : ℕ) : List ℕ → Type 0 where
  only : Last t (t ∷ [])
  behind : {u : ℕ} {ts : List ℕ} → Last t ts → Last t (u ∷ ts)

-- The number of slots from the one that is looked at next to slot `p`.
abbrev pub distance : ℕ → ℕ → ℕ
distance next p = (p + 32 - next % 32) % 32

reach : (next p : ℕ) → p < 32 → (next + distance next p) % 32 ≡ p
reach next p h = omega arith

nearer :
    (next p e : ℕ)
    → p < 32
    → e < distance next p
    → distance ((next + e) % 32 + 1) p < distance next p
nearer next p e h lt = omega arith

module _ (between : ℕ → Sched → Sched) where
  -- The threads that `n` calls select, from call `i` on, with 32 rounds for each call.
  pub selections : ℕ → ℕ → Sched → Outcome (List ℕ × Sched)
  selections zero i st = ok ([], st)
  selections (suc n) i st = do
    (t, st') ← sched_select 32 st
    (later, end) ← selections n (i + 1) (between i st')
    ok (t ∷ later, end)

  -- `n` calls return, and the thread is the last that they select.
  pub Brings : ℕ → ℕ → ℕ → Sched → Type 0
  Brings t n i st = (ts : List ℕ) × (end : Sched) × (selections n i st ≡ ok (ts, end)) × Last t ts

  one_more :
      (u t n i : ℕ) (st st' : Sched)
      → sched_select 32 st ≡ ok (u, st')
      → Brings t n (i + 1) (between i st')
      → Brings t (suc n) i st
  unfolding selections Brings
  one_more u t n i st st' run (ts, end, rest, last) =
      (u ∷ ts, end, rw (run, rest) refl, behind last)

  at_once : (t i : ℕ) (st st' : Sched) → sched_select 32 st ≡ ok (t, st') → Brings t 1 i st
  unfolding selections Brings
  at_once t i st st' run = (t ∷ [], between i st', rw run refl, only)

  fair_within :
      (bound t p i : ℕ) (st : Sched)
      → LeavesWaiting t p between
      → p < 32
      → distance st.sched_next p < bound
      → st.sched_next ≤ 32
      → Waits t p st
      → (n : ℕ) × (n ≤ distance st.sched_next p + 1) × Brings t n i st
  fair_within zero t p i st leaves inside lt small waits = absurd (omega arith)
  fair_within (suc bound) t p i st leaves inside lt small waits =
      let d = distance st.sched_next p in
      let at : slot d st ≡ t = rw (reach st.sched_next p inside) waits.here in
      let (e, near, now, before, run) =
        sched_select-first 32 d st small (omega arith) (rw at waits.runs) in
      elim (Bool-cases (e == d)) [
        | inl same ↦
            let here : e ≡ d = ground arith in
            (1, omega arith, at_once t i st _ (rw (here, at) at run))
        | inr other ↦
            let st' = looked_at ((st.sched_next + e) % thread_queue_size) st in
            let closer = nearer st.sched_next p e inside (ground arith) in
            let next = leaves.next i st' in
            let same_way = ap (λ (k : ℕ). distance k p) next in
            let still = leaves.waits i st' (record { here = waits.here; runs = waits.runs }) in
            let (n, few, brings) =
              fair_within bound t p (i + 1) (between i st') leaves inside
                (omega (arith, same_way, closer)) (rw next (omega arith)) still in
            (
              suc n,
              omega (arith, few, same_way, closer),
              one_more (slot e st) t n i st st' run brings,
            )
      ]

  -- A thread that can run and has a slot in the queue is selected after at most as many calls of
  -- `sched_select` as there are slots from the one that is looked at next to its own, so within 32 calls, each
  -- of which returns: whatever happens to the queue and to the other threads between the calls, as long as it
  -- can run, keeps its slot, and nothing else moves `sched_next`.
  pub sched_select-fair :
      (t p : ℕ) (st : Sched)
      → LeavesWaiting t p between
      → p < 32
      → st.sched_next ≤ 32
      → Waits t p st
      → (n : ℕ) × (n ≤ distance st.sched_next p + 1) × Brings t n 0 st
  sched_select-fair t p st leaves inside small waits =
      fair_within (distance st.sched_next p + 1) t p 0 st leaves inside (omega arith) small waits
