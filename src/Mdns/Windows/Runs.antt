-- ===== src/Mdns/Windows/Runs.antt =====
-- What the thread of the mDNS responder sends over any number of rounds.
use espconnect.Common.{
  ℕ, suc, ◌+◌, ◌/◌, ◌≤◌, ◌<◌, ◌≡◌, refl, List, [], ◌∷◌, ◌++◌, length, length-append, All,
  All-append, leb, if◌then◌else◌, Bool-cases, inl, inr, arith,
}
use espconnect.Mdns.Windows.{
  Mdns, Question, Announcement, announcement, is_asked, query_callback, answers, round, thread_loop,
  mdns_thread,
}

-- How many questions of a round, and of all rounds, ask for the service.
pub asked : Mdns → List Question → ℕ
asked m [] = 0
asked m (q ∷ qs) = (if is_asked m q then 1 else 0) + asked m qs

pub asked_in : Mdns → List (List Question) → ℕ
asked_in m [] = 0
asked_in m (heard ∷ later) = asked m heard + asked_in m later

length-answers : (m : Mdns) (qs : List Question) → length (answers m qs) ≡ asked m qs
unfolding answers asked query_callback
length-answers m [] = refl
length-answers m (q ∷ qs) = elim (Bool-cases (is_asked m q)) [
  | inl e ↦ rw e (omega (arith, length-answers m qs))
  | inr e ↦ rw e (omega (arith, length-answers m qs))
]

length-thread_loop :
    (m : Mdns) (c : ℕ) (rounds : List (List Question))
    → c < 3
    → length (thread_loop m c rounds) ≡ asked_in m rounds + (c + length rounds) / 3
unfolding thread_loop asked_in round
length-thread_loop m c [] small = omega arith
length-thread_loop m c (heard ∷ later) small = elim (Bool-cases (leb 3 (suc c))) [
  | inl e ↦
      let c_large : 2 ≤ c = ground (arith, e) in
      rw e (
        omega (
          arith,
          c_large,
          length-append (answers m heard ++ (announcement m ∷ [])) (thread_loop m 0 later),
          length-append (answers m heard) (announcement m ∷ []),
          length-answers m heard,
          length-thread_loop m 0 later (omega arith),
        ))
  | inr e ↦
      let c_small : suc c < 3 = ground (arith, e) in
      rw e (
        omega (
          arith,
          length-append (answers m heard) (thread_loop m (suc c) later),
          length-answers m heard,
          length-thread_loop m (suc c) later c_small,
        ))
]

answers-All : (m : Mdns) (qs : List Question) → All (λ a. a ≡ announcement m) (answers m qs)
unfolding answers query_callback
answers-All m [] = tt
answers-All m (q ∷ qs) = elim (Bool-cases (is_asked m q)) [
  | inl e ↦ rw e (refl, answers-All m qs)
  | inr e ↦ rw e (answers-All m qs)
]

thread_loop-All :
    (m : Mdns) (c : ℕ) (rounds : List (List Question))
    → All (λ a. a ≡ announcement m) (thread_loop m c rounds)
unfolding thread_loop round
thread_loop-All m c [] = tt
thread_loop-All m c (heard ∷ later) =
    let same = λ (a : Announcement). a ≡ announcement m in
    elim (Bool-cases (leb 3 (suc c))) [
      | inl e ↦ rw e (
          All-append same (answers m heard ++ (announcement m ∷ [])) (thread_loop m 0 later)
            (All-append same (answers m heard) (announcement m ∷ []) (answers-All m heard)
              (refl, tt))
            (thread_loop-All m 0 later))
      | inr e ↦ rw e (
          All-append same (answers m heard) (thread_loop m (suc c) later) (answers-All m heard)
            (thread_loop-All m (suc c) later))
    ]

-- In any number of rounds the thread of the Windows responder sends one announcement at its start,
-- one for each question that is asked of it and one for every three rounds, and nothing else: each
-- is the announcement of the registered service.
pub mdns_thread-asked_in :
    (m : Mdns) (rounds : List (List Question))
    → (length (mdns_thread m rounds) ≡ suc (asked_in m rounds + length rounds / 3))
      × All (λ a. a ≡ announcement m) (mdns_thread m rounds)
unfolding mdns_thread
mdns_thread-asked_in m rounds =
    (omega (arith, length-thread_loop m 0 rounds (omega arith)), (refl, thread_loop-All m 0 rounds))
