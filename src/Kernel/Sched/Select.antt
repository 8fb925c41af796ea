-- ===== src/Kernel/Sched/Select.antt =====
-- `sched_select` of kernel/sched.c goes round the queue.
use levos.Prelude.{
  ℕ, zero, suc, ◌+◌, ◌%◌, ◌≤◌, ◌<◌, ◌≡◌, ◌∙◌, refl, arith, true, false, leb, if◌then◌else◌, get_or,
  Bool-cases, inl, inr,
}
use levos.Prelude.Outcome.{ok, hang}
use levos.Kernel.Sched.{Sched, thread_queue_size, passed_over, sched_select}

-- The thread `d` slots behind the one that is looked at next.
abbrev pub slot : ℕ → Sched → ℕ
slot d st = get_or st.thread_queue ((st.sched_next + d) % thread_queue_size) 0

-- The state once slot `j` was looked at.
abbrev pub looked_at : ℕ → Sched → Sched
looked_at j st = record st { sched_next = j + 1 }

start : (n : ℕ) → n ≤ 32 → (if leb thread_queue_size n then 0 else n) ≡ (n + 0) % 32
start n h = ground arith

next_slot : (n d : ℕ) → n ≤ 32 → ((n + 0) % 32 + 1 + d) % 32 ≡ (n + suc d) % 32
next_slot n d h = omega arith

stop :
    (fuel : ℕ) (st : Sched)
    → st.sched_next ≤ 32
    → passed_over (slot 0 st) st ≡ false
    → sched_select (suc fuel) st
      ≡ ok (slot 0 st, looked_at ((st.sched_next + 0) % thread_queue_size) st)
unfolding sched_select
stop fuel st small e = rw (start st.sched_next small, e)

go_on :
    (fuel : ℕ) (st : Sched)
    → st.sched_next ≤ 32
    → passed_over (slot 0 st) st ≡ true
    → sched_select (suc fuel) st
      ≡ sched_select fuel (looked_at ((st.sched_next + 0) % thread_queue_size) st)
unfolding sched_select
go_on fuel st small e = rw (start st.sched_next small, e)

-- What `sched_select` returns within `fuel` rounds, if it does so at most `d` slots on.
abbrev Selects : ℕ → ℕ → Sched → Type 0
Selects fuel d st =
    (e : ℕ) × (e ≤ d)
    × (passed_over (slot e st) st ≡ false)
    × ((k : ℕ) → k < e → passed_over (slot k st) st ≡ true)
    × (sched_select fuel st
        ≡ ok (slot e st, looked_at ((st.sched_next + e) % thread_queue_size) st))

Selects-next :
    (fuel d : ℕ) (st : Sched)
    → st.sched_next ≤ 32
    → passed_over (slot 0 st) st ≡ true
    → Selects fuel d (looked_at ((st.sched_next + 0) % thread_queue_size) st)
    → Selects (suc fuel) (suc d) st
Selects-next fuel d st small over (e, near, runs, before, run) =
    let there = next_slot st.sched_next e small in
    (suc e, omega arith, rw there at runs, skipped, go_on fuel st small over ∙ rw there at run)
  where
    skipped : (k : ℕ) → k < suc e → passed_over (slot k st) st ≡ true
    skipped zero h = over
    skipped (suc k) h = rw (next_slot st.sched_next k small) at (before k (omega arith))

-- With `sched_next` at 32 or less, and a thread at most `d` slots on that can run, `sched_select`
-- returns within `d + 1` rounds: it picks the first such thread from `sched_next` on, round the end of
-- the queue, and the search after it begins behind that thread.
pub sched_select-first :
    (fuel d : ℕ) (st : Sched)
    → st.sched_next ≤ 32
    → d < fuel
    → passed_over (slot d st) st ≡ false
    → (e : ℕ) × (e ≤ d)
      × (passed_over (slot e st) st ≡ false)
      × ((k : ℕ) → k < e → passed_over (slot k st) st ≡ true)
      × (sched_select fuel st
          ≡ ok (slot e st, looked_at ((st.sched_next + e) % thread_queue_size) st))
sched_select-first zero d st small lt runs = absurd (omega arith)
sched_select-first (suc fuel) zero st small lt runs =
    (0, omega arith, runs, (λ k h. absurd (omega arith)), stop fuel st small runs)
sched_select-first (suc fuel) (suc d) st small lt runs =
    elim (Bool-cases (passed_over (slot 0 st) st)) [
      | inr now ↦ (0, omega arith, now, (λ k h. absurd (omega arith)), stop fuel st small now)
      | inl over ↦
          let st' = looked_at ((st.sched_next + 0) % thread_queue_size) st in
          Selects-next fuel d st small over (
            sched_select-first fuel d st' (omega arith) (omega arith)
              (rw (next_slot st.sched_next d small) runs))
    ]

-- With `sched_next` at 32 or less, if no thread of the queue can run, `sched_select` never returns,
-- however long it goes round.
pub sched_select-hangs :
    (fuel : ℕ) (st : Sched)
    → st.sched_next ≤ 32
    → ((k : ℕ) → passed_over (slot k st) st ≡ true)
    → sched_select fuel st ≡ hang
sched_select-hangs zero st small none_runs = unfold sched_select in refl
sched_select-hangs (suc fuel) st small none_runs =
    go_on fuel st small (none_runs 0)
    ∙ sched_select-hangs fuel (looked_at ((st.sched_next + 0) % thread_queue_size) st) (omega arith)
        (λ k. rw (next_slot st.sched_next k small) (none_runs (suc k)))
