-- ===== src/Consumer/Loops/Invariant.antt =====
-- The invariant of the consumer's goroutines, and what keeps it.
use go_video_transcode_servi.Common.{
  ℕ, suc, ◌≤◌, ltb, length, length-append, Text, true, List, [], ◌∷◌, ◌++◌, ◌≡◌, ◌≢◌, refl, ap, ◌∙◌,
  arith, ltb→lt,
}
use mathlib.Core.List.{append-nil, append_assoc}
use go_video_transcode_servi.Consumer.Loops.{
  ReaderPc, reading, read_done, sending, ProcessPc, handling, not_stopping, waiting_read, Loops,
  Action, consume, send, give_up, take, leave, handle, begin_stop, close_channel, end_stop, put,
  started,
}

-- The message that the reader holds.
abbrev pub held : ReaderPc → List Text
held reading = []
held read_done = []
held (sending m) = m ∷ []

abbrev pub counted : Action → ℕ → ℕ
counted begin_stop n = suc n
counted (consume p g) n = n
counted send n = n
counted give_up n = n
counted (take i) n = n
counted (leave i) n = n
counted (handle i c) n = n
counted close_channel n = n
counted end_stop n = n

-- How often `Stop` has been called in the end, after `n` calls.
abbrev pub stops : List Action → ℕ → ℕ
stops [] n = n
stops (a ∷ rest) n = stops rest (counted a n)

le-counted : (a : Action) (n : ℕ) → n ≤ counted a n
le-counted begin_stop n = omega arith
le-counted (consume p g) n = omega arith
le-counted send n = omega arith
le-counted give_up n = omega arith
le-counted (take i) n = omega arith
le-counted (leave i) n = omega arith
le-counted (handle i c) n = omega arith
le-counted close_channel n = omega arith
le-counted end_stop n = omega arith

pub le-stops : (rest : List Action) (n : ℕ) → n ≤ stops rest n
le-stops [] n = omega arith
le-stops (a ∷ rest) n = omega (arith, le-counted a n, le-stops rest (counted a n))

-- The state behind `n` calls of `Stop`.
pub record Inv {S : Type 0} (n : ℕ) (l : Loops S) : Type 0 where
  pub order : l.fetched ≡ l.taken ++ (l.channel ++ (held l.reader ++ l.given_up))
  pub room : length l.channel ≤ l.max
  pub closed_late : l.closed ≡ true → (l.reader ≡ read_done) × (1 ≤ n)
  pub closing : l.closed ≡ true → l.stop ≡ waiting_read → 2 ≤ n
  pub stopping : l.stop ≢ not_stopping → 1 ≤ n
  pub canceling : l.stop ≢ not_stopping → l.canceled ≡ true
  pub kept : (m : Text) → l.reader ≡ sending m → l.given_up ≡ []
  pub kept_all : l.reader ≡ reading → l.given_up ≡ []
  pub one_given_up : length l.given_up ≤ 1

pub started-Inv : {S : Type 0} (max : ℕ) (app : S) → Inv 0 (started max app)
started-Inv max app = record {
  order = refl;
  room = omega arith;
  closed_late = λ h. absurd (ground arith);
  closing = λ h _. absurd (ground arith);
  stopping = λ h. absurd (h refl);
  canceling = λ h. absurd (h refl);
  kept = λ m h. refl;
  kept_all = λ h. refl;
  one_given_up = omega arith;
}

-- The history of the channel behind a fetch, a send, a message given up and a receive.
module _ (m : Text) (f t c : List Text) (r : ReaderPc) (g : List Text)
    (h : f ≡ t ++ (c ++ (held r ++ g))) where
  order_fetch : r ≡ reading → g ≡ [] → f ++ m ∷ [] ≡ t ++ (c ++ (m ∷ g))
  order_fetch e n =
      ap (λ (x : List Text). x ++ m ∷ []) h ∙ rw (e, n) (simp (append_assoc, append-nil) refl)

  order_send : r ≡ sending m → f ≡ t ++ ((c ++ m ∷ []) ++ g)
  order_send e = h ∙ rw e (simp append_assoc refl)

  order_give_up : r ≡ sending m → g ≡ [] → f ≡ t ++ (c ++ (g ++ m ∷ []))
  order_give_up e n = h ∙ rw (e, n) refl

  order_take : {rest : List Text} → c ≡ m ∷ rest → f ≡ (t ++ m ∷ []) ++ (rest ++ (held r ++ g))
  order_take e = h ∙ rw e (simp append_assoc refl)

module _ {S : Type 0} (n : ℕ) (l : Loops S) (v : Inv n l) where
  pub process_Inv : (process : ℕ → ProcessPc) → Inv n (record l { process = process })
  process_Inv process = record {
    order = v.order;
    room = v.room;
    closed_late = λ c. v.closed_late c;
    closing = λ c w. v.closing c w;
    stopping = λ h. v.stopping h;
    canceling = λ h. v.canceling h;
    kept = λ k h. v.kept k h;
    kept_all = λ h. v.kept_all h;
    one_given_up = v.one_given_up;
  }

  pub done_Inv : l.reader ≡ reading → Inv n (record l { reader = read_done })
  done_Inv e = record {
    order = ground (arith, v.order);
    room = v.room;
    closed_late = λ c. ground (arith, v.closed_late c);
    closing = λ c w. v.closing c w;
    stopping = λ h. v.stopping h;
    canceling = λ h. v.canceling h;
    kept = λ k h. cc;
    kept_all = λ h. cc;
    one_given_up = v.one_given_up;
  }

  pub fetched_Inv :
      (m : Text)
      → l.reader ≡ reading
      → Inv n (record l { reader = sending m; fetched = l.fetched ++ m ∷ [] })
  fetched_Inv m e = record {
    order = order_fetch m _ l.taken l.channel l.reader l.given_up v.order e (v.kept_all e);
    room = v.room;
    closed_late = λ c. absurd (ground (arith, v.closed_late c));
    closing = v.closing;
    stopping = v.stopping;
    canceling = v.canceling;
    kept = λ k h. v.kept_all e;
    kept_all = λ h. v.kept_all e;
    one_given_up = v.one_given_up;
  }

  pub sent_Inv :
      (m : Text)
      → l.reader ≡ sending m
      → ltb (length l.channel) l.max ≡ true
      → Inv n (record l { reader = reading; channel = l.channel ++ m ∷ [] })
  sent_Inv m e fits = record {
    order = order_send m _ l.taken l.channel l.reader l.given_up v.order e;
    room = omega (arith, length-append l.channel (m ∷ []), ltb→lt _ _ fits);
    closed_late = λ c. absurd (ground (arith, v.closed_late c));
    closing = v.closing;
    stopping = v.stopping;
    canceling = v.canceling;
    kept = λ k h. v.kept m e;
    kept_all = λ h. v.kept m e;
    one_given_up = v.one_given_up;
  }

  pub gave_up_Inv :
      (m : Text)
      → l.reader ≡ sending m
      → Inv n (record l { reader = read_done; given_up = l.given_up ++ m ∷ [] })
  gave_up_Inv m e = record {
    order = order_give_up m _ l.taken l.channel l.reader l.given_up v.order e (v.kept m e);
    room = v.room;
    closed_late = λ c. ground (arith, v.closed_late c);
    closing = v.closing;
    stopping = v.stopping;
    canceling = v.canceling;
    kept = λ k h. cc;
    kept_all = λ h. cc;
    one_given_up = rw (v.kept m e) (omega arith);
  }

  pub took_Inv :
      (i : ℕ) (m : Text) (rest : List Text)
      → l.channel ≡ m ∷ rest
      → Inv n (record l {
        channel = rest;
        process = put i (handling m) l.process;
        taken = l.taken ++ m ∷ [];
      })
  took_Inv i m rest e = record {
    order = order_take m _ l.taken l.channel l.reader l.given_up v.order e;
    room = ground (arith, v.room);
    closed_late = v.closed_late;
    closing = v.closing;
    stopping = v.stopping;
    canceling = v.canceling;
    kept = v.kept;
    kept_all = v.kept_all;
    one_given_up = v.one_given_up;
  }
