-- ===== src/Consumer/Loops/Weight.antt =====
-- How much the consumer's goroutines have left to do once the context is cancelled, which each action
-- lowers.
use go_video_transcode_servi.Common.{
  ℕ, zero, suc, ◌+◌, ◌*◌, ◌≤◌, ◌<◌, ◌==◌, ltb, length, length-append, Text, Bool, true, List, [],
  ◌∷◌, ◌≡◌, inl, inr, refl, ap, arith, Option, none, some, if_elim, if◌then◌else◌, Bool-cases,
  ==_iff,
}
use go_video_transcode_servi.Consumer.Loops.{
  ReaderPc, reading, read_done, sending, ProcessPc, selecting, process_done, handling, StopPc,
  not_stopping, waiting_read, waiting_process, Loops, Action, Outcome, blocked, faulted, moved, put,
  consumed, sent, gave_up, took, left, begun, closed_by, ended, all_done,
}
use go_video_transcode_servi.Consumer.Loops.Invariant.{counted}

-- How much is left to do at a place.
abbrev pub reader_weight : ReaderPc → ℕ
reader_weight reading = 1
reader_weight read_done = 0
reader_weight (sending m) = 4

abbrev process_weight : ProcessPc → ℕ
process_weight selecting = 1
process_weight process_done = 0
process_weight (handling m) = 2

abbrev weights : ℕ → (ℕ → ProcessPc) → ℕ
weights zero process = 0
weights (suc n) process = process_weight (process n) + weights n process

abbrev pub stop_weight : StopPc → ℕ
stop_weight not_stopping = 0
stop_weight waiting_read = 2
stop_weight waiting_process = 1

abbrev pub weight : {S : Type 0} → Loops S → ℕ
weight l =
    reader_weight l.reader + 2 * length l.channel + weights l.max l.process + stop_weight l.stop

process_weight_bound : (pc : ProcessPc) → process_weight pc ≤ 2
process_weight_bound selecting = omega arith
process_weight_bound process_done = omega arith
process_weight_bound (handling m) = omega arith

pub weights_bound : (n : ℕ) (process : ℕ → ProcessPc) → weights n process ≤ 2 * n
weights_bound zero process = omega arith
weights_bound (suc n) process =
    let b = weights_bound n process in omega (arith, b, process_weight_bound (process n))

weights-put_above :
    (n i : ℕ) (pc : ProcessPc) (process : ℕ → ProcessPc)
    → n ≤ i
    → weights n (put i pc process) ≡ weights n process
weights-put_above zero i pc process h = refl
weights-put_above (suc n) i pc process h =
    let later = weights-put_above n i pc process (omega arith) in ground (arith, later)

weights-put :
    (n i : ℕ) (pc : ProcessPc) (process : ℕ → ProcessPc)
    → i < n
    → weights n (put i pc process) + process_weight (process i)
      ≡ weights n process + process_weight pc
weights-put zero i pc process h = absurd (omega arith)
weights-put (suc n) i pc process h = elim (Bool-cases (i == n)) [
  | inl hit ↦
      let same : i ≡ n = (==_iff i n).0 hit in
      rw (weights-put_above n i pc process (omega (arith, same)), hit) (rw same (omega arith))
  | inr miss ↦
      let later = weights-put n i pc process (ground (arith, ==_iff i n)) in
      rw miss (omega (arith, later))
]

-- An action uses up one unit at least, except that a call of `Stop` adds to what is left; the context
-- stays cancelled.
abbrev pub cost : Action → ℕ
cost a = 3 * counted a 0

abbrev Lower : {S : Type 0} → ℕ → Loops S → Loops S → Type 0
Lower c l l' = (suc (weight l') ≤ weight l + c) × (l'.canceled ≡ true)

abbrev pub Used : {S : Type 0} → ℕ → Loops S → Outcome S → Type 0
Used c l blocked = Unit {0}
Used c l faulted = Unit {0}
Used c l (moved l') = Lower c l l'

module _ {S : Type 0} (l : Loops S) (done : l.canceled ≡ true) where
  -- Where the test is whether the context is cancelled.
  canceled_elim :
      {A : Type 0} (P : A → Type 0) {x : A} (y : A) → P x → P (if l.canceled then x else y)
  canceled_elim P y p = if_elim P l.canceled (λ _. p) (λ off. absurd (ground (arith, done, off)))

  reader_Lower : l.reader ≡ reading → Lower 0 l (record l { reader = read_done })
  reader_Lower e = (omega (arith, ap reader_weight e), done)

  pub process_Lower :
      (i : ℕ) (pc now : ProcessPc)
      → i < l.max
      → l.process i ≡ pc
      → process_weight now < process_weight pc
      → Lower 0 l (record l { process = put i now l.process })
  process_Lower i pc now h e less =
      (omega (arith, weights-put l.max i now l.process h, ap process_weight e, less), done)

  pub consumed-Used :
      (pc : ReaderPc) (paused : Bool) (got : Option Text)
      → l.reader ≡ pc
      → Used 0 l (consumed pc paused got l)
  unfolding consumed
  consumed-Used read_done paused got e = tt
  consumed-Used (sending m) paused got e = tt
  consumed-Used reading paused none e = canceled_elim (Lower 0 l) _ (reader_Lower e)
  consumed-Used reading paused (some m) e = canceled_elim (Lower 0 l) _ (reader_Lower e)

  pub sent-Used : (pc : ReaderPc) → l.reader ≡ pc → Used 0 l (sent pc l)
  unfolding sent
  sent-Used reading e = tt
  sent-Used read_done e = tt
  sent-Used (sending m) e =
      if_elim (Used 0 l) l.closed (λ _. tt)
        λ _.
          if_elim (Used 0 l) (ltb (length l.channel) l.max)
            (λ _. (omega (arith, ap reader_weight e, length-append l.channel (m ∷ [])), done))
            (λ _. tt)

  pub gave_up-Used : (pc : ReaderPc) → l.reader ≡ pc → Used 0 l (gave_up pc l)
  unfolding gave_up
  gave_up-Used reading e = tt
  gave_up-Used read_done e = tt
  gave_up-Used (sending m) e = canceled_elim (Used 0 l) _ (omega (arith, ap reader_weight e), done)

  pub took-Used :
      (i : ℕ) (pc : ProcessPc) (queued : List Text)
      → i < l.max
      → l.process i ≡ pc
      → l.channel ≡ queued
      → Used 0 l (took i pc queued l)
  unfolding took
  took-Used i process_done queued h e q = tt
  took-Used i (handling m) queued h e q = tt
  took-Used i selecting [] h e q =
      if_elim (Used 0 l) l.closed (λ _. process_Lower i selecting process_done h e (omega arith))
        (λ _. tt)
  took-Used i selecting (m ∷ rest) h e q =
      let w = weights-put l.max i (handling m) l.process h in
      let c : length l.channel ≡ suc (length rest) = ap length q in
      (omega (arith, w, ap process_weight e, c), done)

  pub left-Used : (i : ℕ) (pc : ProcessPc) → i < l.max → l.process i ≡ pc → Used 0 l (left i pc l)
  unfolding left
  left-Used i process_done h e = tt
  left-Used i (handling m) h e = tt
  left-Used i selecting h e =
      canceled_elim (Used 0 l) _ (process_Lower i selecting process_done h e (omega arith))

  pub begun-Used : (pc : StopPc) → l.stop ≡ pc → Used 3 l (begun pc l)
  unfolding begun
  begun-Used waiting_read e = tt
  begun-Used waiting_process e = tt
  begun-Used not_stopping e = (omega (arith, ap stop_weight e), refl)

  pub closed_by-Used :
      (pc : StopPc) (reader : ReaderPc) → l.stop ≡ pc → Used 0 l (closed_by pc reader l)
  unfolding closed_by
  closed_by-Used waiting_read reading e = tt
  closed_by-Used waiting_read (sending m) e = tt
  closed_by-Used waiting_process reader e = tt
  closed_by-Used not_stopping reader e = tt
  closed_by-Used waiting_read read_done e =
      if_elim (Used 0 l) l.closed (λ _. tt) (λ _. (omega (arith, ap stop_weight e), done))

  pub ended-Used : (pc : StopPc) → l.stop ≡ pc → Used 0 l (ended pc l)
  unfolding ended
  ended-Used waiting_read e = tt
  ended-Used not_stopping e = tt
  ended-Used waiting_process e =
      if_elim (Used 0 l) (all_done l.max l.process) (λ _. (omega (arith, ap stop_weight e), done))
        (λ _. tt)
