-- ===== src/Kernel/Sched/Queue.antt =====
-- `sched_add_process` of kernel/sched.c: where the threads of a process go.
use levos.Prelude.{
  ℕ, ◌+◌, ◌≤◌, ◌<◌, ◌≡◌, ◌≢◌, ◌∙◌, refl, arith, List, [], ◌∷◌, false, ◌==◌, leb, if◌then◌else◌,
  length, All, Bool-cases, inl, inr,
}
use levos.Prelude.Int.{pos}
use levos.Kernel.Sched.{Sched, thread_queue_size, put_thread, put_threads, sched_add_process}

-- The occupied slots of the queue, and how often a thread stands in it.
abbrev pub occupied : List ℕ → ℕ
occupied [] = 0
occupied (q ∷ queue) = (if q == 0 then 0 else 1) + occupied queue

abbrev pub copies : ℕ → List ℕ → ℕ
copies t [] = 0
copies t (q ∷ queue) = (if q == t then 1 else 0) + copies t queue

occupied-le : (queue : List ℕ) → occupied queue ≤ length queue
occupied-le [] = omega arith
occupied-le (q ∷ queue) = ground (arith, occupied-le queue)

length-put_thread : (t : ℕ) (queue : List ℕ) → length (put_thread t queue) ≡ length queue
unfolding put_thread
length-put_thread t [] = refl
length-put_thread t (q ∷ queue) = ground (arith, length-put_thread t queue)

-- With a slot left, exactly one of the empty slots is taken.
occupied-put_thread :
    (t : ℕ) (queue : List ℕ)
    → t ≢ 0
    → occupied queue < length queue
    → occupied (put_thread t queue) ≡ occupied queue + 1
unfolding put_thread
occupied-put_thread t [] h room = absurd (omega arith)
occupied-put_thread t (q ∷ queue) h room = elim (Bool-cases (q == 0)) [
  | inl e ↦ ground arith
  | inr e ↦ ground (arith, occupied-put_thread t queue h (ground arith))
]

copies-put_thread :
    (u t : ℕ) (queue : List ℕ)
    → u ≢ 0
    → occupied queue < length queue
    → copies u (put_thread t queue) ≡ copies u queue + copies u (t ∷ [])
unfolding put_thread
copies-put_thread u t [] h room = absurd (omega arith)
copies-put_thread u t (q ∷ queue) h room = elim (Bool-cases (q == 0)) [
  | inl e ↦ ground arith
  | inr e ↦ ground (arith, copies-put_thread u t queue h (ground arith))
]

put_threads_each :
    (threads queue : List ℕ)
    → All (λ t. t ≢ 0) threads
    → occupied queue + length threads ≤ length queue
    → (length (put_threads threads queue) ≡ length queue)
      × (occupied (put_threads threads queue) ≡ occupied queue + length threads)
      × ((u : ℕ) → u ≢ 0 → copies u (put_threads threads queue) ≡ copies u queue + copies u threads)
unfolding put_threads
put_threads_each [] queue h room = (refl, omega arith, λ u hu. omega arith)
put_threads_each (t ∷ threads) queue (ne, h) room =
    let queue' = put_thread t queue in
    let len = length-put_thread t queue in
    let occ = occupied-put_thread t queue ne (omega arith) in
    let (len', occ', all') = put_threads_each threads queue' h (omega arith) in
    (
      omega arith,
      omega arith,
      λ u hu. omega (arith, all' u hu, copies-put_thread u t queue hu (omega arith)),
    )

-- The queue is an array of 32 pointers, and the counter counts the occupied ones.
pub record IsQueue (st : Sched) : Type 0 where
  pub slots : length st.thread_queue ≡ thread_queue_size
  pub counted : occupied st.thread_queue ≡ st.sched_current_threads

-- On a queue of 32 slots whose counter counts the occupied ones, a process none of whose threads is
-- null, and with fewer threads than there are empty slots, is added: each of its threads is entered
-- once more, no other thread gains or loses a place, and the counter still counts the occupied slots.
pub sched_add_process-IsQueue :
    (p : ℕ) (st : Sched)
    → p ≢ 0
    → All (λ t. t ≢ 0) (st.process_at p).threads
    → IsQueue st
    → st.sched_current_threads + length (st.process_at p).threads < thread_queue_size
    → ((sched_add_process p st).0 ≡ pos 0)
      × IsQueue (sched_add_process p st).1
      × ((u : ℕ)
          → u ≢ 0
          → copies u (sched_add_process p st).1.thread_queue
            ≡ copies u st.thread_queue + copies u (st.process_at p).threads)
unfolding sched_add_process
sched_add_process-IsQueue p st ne h inv room =
    let some : (p == 0) ≡ false = ground arith in
    let fits : leb thread_queue_size (st.sched_current_threads + length (st.process_at p).threads)
        ≡ false =
      ground arith in
    let (len, occ, all) =
      put_threads_each (st.process_at p).threads st.thread_queue h
        (omega (arith, inv.slots, inv.counted)) in
    rw (some, fits)
      (refl, record { slots = len ∙ inv.slots; counted = omega (arith, occ, inv.counted) }, all)
