-- ===== src/Clients/Retry.antt =====
-- How often the video service is called.
use go_video_transcode_servi.Common.{
  ℕ, suc, ◌+◌, ◌≤◌, true, false, Bool-cases, ◌≡◌, ◌⊎◌, inl, inr, refl, ◌∙◌, arith, Option, none,
  some, Error, Result, ok, err, is_empty, Bool,
}
use go_video_transcode_servi.Clients.{
  Client, Remote, TranscodeResult, Response, connect, hung_up, reconnect, retried, called, ready,
  connected_or, update_transcode_result,
}

-- A count of the calls, which only `call` raises.
record CountLaws {S : Type 0} (remote : Remote S) (calls : S → ℕ) : Type 0 where
  pub dial_keeps : (c : Client) (s : S) → calls (remote.dial c.address c.timeout s).1 ≡ calls s
  pub hang_up_keeps : (s : S) → calls (remote.hang_up s) ≡ calls s
  pub call_counts : (req : TranscodeResult) (s : S) → calls (remote.call req s).1 ≡ suc (calls s)

module _ {S : Type 0} (remote : Remote S) (calls : S → ℕ) (laws : CountLaws remote calls) where
  connect-keeps : (c : Client) (s : S) → calls (connect remote c s).1 ≡ calls s
  unfolding connect
  connect-keeps c s = elim (Bool-cases (is_empty c.address)) [
    | inl blank ↦ simp blank refl
    | inr named ↦ simp named (laws.dial_keeps c s)
  ]

  hung_up-keeps : (on : Bool) (s : S) → calls (hung_up remote on s) ≡ calls s
  hung_up-keeps true s = laws.hang_up_keeps s
  hung_up-keeps false s = refl

  reconnect-keeps : (c : Client) (s : S) → calls (reconnect remote c s).1 ≡ calls s
  unfolding reconnect
  reconnect-keeps c s = connect-keeps c (hung_up remote c.connected s) ∙ hung_up-keeps c.connected s

  connected_or-keeps :
      (on : Bool) (c : Client) (s : S) → calls (connected_or remote on c s).1 ≡ calls s
  connected_or-keeps true c s = refl
  connected_or-keeps false c s = connect-keeps c s

  -- An outcome, from a count before it.
  Few : ℕ → (Client × Result Error Response) × S → Type 0
  Few before r =
      (calls r.1 ≤ before + 2)
      × (((answer : Response) × (r.0.1 ≡ ok answer) × (before + 1 ≤ calls r.1))
          ⊎ ((e : Error) × (r.0.1 ≡ err e)))

  one_call :
      (before : ℕ) (c : Client) (answer : Result Error Response) (s : S)
      → before + 1 ≤ calls s
      → calls s ≤ before + 2
      → Few before ((c, answer), s)
  unfolding Few
  one_call before c (ok answer) s a b = (b, inl (answer, refl, a))
  one_call before c (err e) s a b = (b, inr (e, refl))

  retried-Few :
      (before : ℕ) (req : TranscodeResult) (e : Error) (again : Client × Option Error) (s : S)
      → calls s ≡ before + 1
      → Few before (retried remote req e again s)
  unfolding retried Few
  retried-Few before req e (c, some lost) s h = (omega (arith, h), inr (e, refl))
  retried-Few before req e (c, none) s h =
      let n = laws.call_counts req s in
      one_call before c (remote.call req s).0 (remote.call req s).1 (omega (arith, h, n))
        (omega (arith, h, n))

  called-Few :
      (before : ℕ) (req : TranscodeResult) (c : Client) (answer : Result Error Response) (s : S)
      → calls s ≡ before + 1
      → Few before (called remote req c answer s)
  unfolding called
  called-Few before req c (ok answer) s h =
      one_call before c (ok answer) s (omega (arith, h)) (omega (arith, h))
  called-Few before req c (err e) s h =
      retried-Few before req e (reconnect remote c s).0 (reconnect remote c s).1
        (reconnect-keeps c s ∙ h)

  ready-Few :
      (before : ℕ) (req : TranscodeResult) (connection : Client × Option Error) (s : S)
      → calls s ≡ before
      → Few before (ready remote req connection s)
  unfolding ready Few
  ready-Few before req (c, some e) s h = (omega (arith, h), inr (_, refl))
  ready-Few before req (c, none) s h =
      called-Few before req c (remote.call req s).0 (remote.call req s).1
        (omega (arith, h, laws.call_counts req s))

  -- The video service is called twice at most, however often the connection is lost, and a result that
  -- is no error comes from a call.
  update_transcode_result-Few :
      (req : TranscodeResult) (c : Client) (s : S)
      → Few (calls s) (update_transcode_result remote req c s)
  unfolding update_transcode_result
  update_transcode_result-Few req c s =
      ready-Few (calls s) req (connected_or remote c.connected c s).0
        (connected_or remote c.connected c s).1 (connected_or-keeps c.connected c s)
