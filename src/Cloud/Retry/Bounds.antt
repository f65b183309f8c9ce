-- ===== src/Cloud/Retry/Bounds.antt =====
-- The whole run of `_execute_cloud_action_with_retry`: attempts, backoff, notification and outcome.
use rdp_on_demand_proxy_serv.Base.{
  ℕ, zero, suc, ◌+◌, ◌-◌, ◌≤◌, ◌<◌, ◌≡◌, refl, ap, ◌∙◌, ◌↔◌, true, Option, none, some, List, [],
  ◌∷◌, ◌++◌, ◌⊎◌, inl, inr, arith, take, String,
}
use rdp_on_demand_proxy_serv.Cloud.{InstanceState, Operation, World}
use rdp_on_demand_proxy_serv.Cloud.Retry.{
  Event, checked, performed, failed, slept, notified, Memory, Verdict, succeeds, breaks, continues,
  max_action_retries, backoff, round, loop, Run, conclude, prefixed, give_up, report_success,
  execute_cloud_action_with_retry, no_memory,
}
use rdp_on_demand_proxy_serv.Cloud.Retry.Rounds.{
  sleeps, notices, Reached, Careful, RoundLaw, round_law,
}

sleeps-append : (es fs : List Event) → sleeps (es ++ fs) ≡ sleeps es ++ sleeps fs
sleeps-append [] fs = refl
sleeps-append (slept n ∷ es) fs = ap (λ ns. n ∷ ns) (sleeps-append es fs)
sleeps-append (_ ∷ es) fs = sleeps-append es fs

notices-append : (es fs : List Event) → notices (es ++ fs) ≡ notices es ++ notices fs
notices-append [] fs = refl
notices-append (notified b n e ∷ es) fs = ap (λ ns. (b, n) ∷ ns) (notices-append es fs)
notices-append (_ ∷ es) fs = notices-append es fs

Careful-append :
    (op : Operation) (seen : Option InstanceState) (es fs : List Event)
    → Careful op seen es
    → ((seen' : Option InstanceState) → Careful op seen' fs)
    → Careful op seen (es ++ fs)
Careful-append op seen [] fs h k = k seen
Careful-append op seen (checked st ∷ es) fs h k = Careful-append op (some st) es fs h k
Careful-append op seen (performed ∷ es) fs h k = (h.0, Careful-append op none es fs h.1 k)
Careful-append op seen (failed e ∷ es) fs h k = (h.0, Careful-append op none es fs h.1 k)
Careful-append op seen (slept n ∷ es) fs h k = Careful-append op none es fs h k
Careful-append op seen (notified b n e ∷ es) fs h k = Careful-append op none es fs h k

Reached-append_left : (op : Operation) (es fs : List Event) → Reached op es → Reached op (es ++ fs)
Reached-append_left op [] fs h = absurd h
Reached-append_left op (checked st ∷ es) fs (inl h) = inl h
Reached-append_left op (checked st ∷ es) fs (inr h) = inr (Reached-append_left op es fs h)
Reached-append_left op (performed ∷ es) fs h = tt
Reached-append_left op (_ ∷ es) fs h = Reached-append_left op es fs h

Reached-append_right : (op : Operation) (es fs : List Event) → Reached op fs → Reached op (es ++ fs)
Reached-append_right op [] fs h = h
Reached-append_right op (checked st ∷ es) fs h = inr (Reached-append_right op es fs h)
Reached-append_right op (performed ∷ es) fs h = tt
Reached-append_right op (_ ∷ es) fs h = Reached-append_right op es fs h

Reached-append :
    (op : Operation) (es fs : List Event) → Reached op (es ++ fs) → Reached op es ⊎ Reached op fs
Reached-append op [] fs h = inr h
Reached-append op (checked st ∷ es) fs (inl h) = inl (inl h)
Reached-append op (checked st ∷ es) fs (inr h) = elim (Reached-append op es fs h) [
  | inl here ↦ inl (inr here)
  | inr later ↦ inr later
]
Reached-append op (performed ∷ es) fs h = inl tt
Reached-append op (failed e ∷ es) fs h = Reached-append op es fs h
Reached-append op (slept n ∷ es) fs h = Reached-append op es fs h
Reached-append op (notified b n e ∷ es) fs h = Reached-append op es fs h

-- The backoffs of `n` rounds from the round `i` on.
abbrev waits : ℕ → ℕ → List ℕ
waits i zero = []
waits i (suc n) = backoff i ∷ waits (i + 1) n

-- `n` rounds went on before the last one.
record RunLaw {W : Type 0} (index : ℕ) (op : Operation) (r : Run W) : Type 0 where
  more : ℕ
  attempts : r.attempts ≡ index + more + 1
  bounded : r.attempts ≤ max_action_retries + 1
  slept : sleeps r.trace ≡ waits index more
  notified_once : notices r.trace ≡ (r.success, r.attempts) ∷ []
  outcome : (r.success ≡ true) ↔ Reached op r.trace
  careful : (seen : Option InstanceState) → Careful op seen r.trace

waits_take : (n : ℕ) → n ≤ 3 → waits 0 n ≡ take n (5 ∷ 10 ∷ 20 ∷ [])
waits_take zero h = refl
waits_take (suc zero) h = refl
waits_take (suc (suc zero)) h = refl
waits_take (suc (suc (suc zero))) h = refl
waits_take (suc (suc (suc (suc n)))) h = absurd (omega arith)

first_waits :
    {W : Type 0} {op : Operation} (r : Run W)
    → RunLaw 0 op r
    → sleeps r.trace ≡ take (r.attempts - 1) (5 ∷ 10 ∷ 20 ∷ [])
first_waits r l =
    let same : l.more ≡ r.attempts - 1 = omega (arith, l.attempts) in
    l.slept
    ∙ waits_take l.more (omega (arith, l.attempts, l.bounded))
    ∙ ap (λ n. take n (5 ∷ 10 ∷ 20 ∷ [])) same

Careful-weaken :
    (op : Operation) (seen : Option InstanceState) (es : List Event)
    → Careful op none es
    → Careful op seen es
Careful-weaken op seen [] h = tt
Careful-weaken op seen (performed ∷ es) h = absurd h.0
Careful-weaken op seen (failed e ∷ es) h = absurd h.0
Careful-weaken op seen (checked st ∷ es) h = h
Careful-weaken op seen (slept n ∷ es) h = h
Careful-weaken op seen (notified b n e ∷ es) h = h

module _ {W : Type 0} (p : World W) (stop_mode : Option String) where
  success_law :
      (index : ℕ) (op : Operation) (m : Memory) (es : List Event) (w : W)
      → index ≤ max_action_retries
      → RoundLaw index op none (succeeds m es w)
      → RunLaw index op (prefixed p stop_mode es (report_success p stop_mode (index + 1) w))
  success_law index op m es w le h = record {
    more = 0;
    attempts = omega arith;
    bounded = omega arith;
    slept = rw (sleeps-append, h.0);
    notified_once = rw (notices-append, h.1);
    outcome = (λ _. Reached-append_left op es _ h.2, λ _. refl);
    careful = λ seen. Careful-append op seen es _ (Careful-weaken op seen es h.3) (λ _. tt);
  }

  failure_law :
      (index : ℕ) (op : Operation) (m : Memory) (es : List Event) (w : W)
      → index ≤ max_action_retries
      → RoundLaw index op none (breaks m es w)
      → RunLaw index op (prefixed p stop_mode es (give_up p stop_mode (index + 1) m w))
  failure_law index op m es w le h = record {
    more = 0;
    attempts = omega arith;
    bounded = omega arith;
    slept = rw (sleeps-append, h.0);
    notified_once = rw (notices-append, h.1);
    outcome = (
      (λ e. cc),
      λ r. elim (Reached-append op es _ r) [
        | inl here ↦ absurd (h.2 here)
        | inr later ↦ absurd later
      ],
    );
    careful = λ seen. Careful-append op seen es _ (Careful-weaken op seen es h.3) (λ _. tt);
  }

  again_law :
      (index : ℕ) (op : Operation) (m : Memory) (es : List Event) (w : W) (r : Run W)
      → RoundLaw index op none (continues m es w)
      → RunLaw (index + 1) op r
      → RunLaw index op (prefixed p stop_mode es r)
  again_law index op m es w r h l = record {
    more = suc l.more;
    attempts = omega (arith, l.attempts);
    bounded = l.bounded;
    slept = rw (sleeps-append, h.0, l.slept);
    notified_once = rw (notices-append, h.1) l.notified_once;
    outcome = (
      λ e. Reached-append_right op es r.trace (l.outcome.0 e),
      λ g. elim (Reached-append op es r.trace g) [
        | inl here ↦ absurd (h.2 here)
        | inr later ↦ l.outcome.1 later
      ],
    );
    careful = λ seen. Careful-append op seen es _ (Careful-weaken op seen es h.3) l.careful;
  }

  conclude_law :
      (index : ℕ) (op : Operation) (rest : Memory → W → Run W) (v : Verdict W)
      → index ≤ max_action_retries
      → RoundLaw index op none v
      → (index < max_action_retries → (m : Memory) (w : W) → RunLaw (index + 1) op (rest m w))
      → RunLaw index op (conclude p stop_mode rest (index + 1) v)
  unfolding conclude
  conclude_law index op rest (succeeds m es w) le h k = success_law index op m es w le h
  conclude_law index op rest (breaks m es w) le h k = failure_law index op m es w le h
  conclude_law index op rest (continues m es w) le h k =
      again_law index op m es w (rest m w) h (k h.4 m w)

  loop_law :
      (left index : ℕ) (op : Operation) (m : Memory) (w : W)
      → index + left ≡ max_action_retries
      → RunLaw index op (loop p stop_mode (suc left) index op m w)
  unfolding loop
  loop_law zero index op m w e =
      conclude_law index op _ (round p stop_mode index op m w) (omega arith)
        (round_law p stop_mode index op m w) (λ lt. absurd (omega arith))
  loop_law (suc left) index op m w e =
      conclude_law index op _ (round p stop_mode index op m w) (omega arith)
        (round_law p stop_mode index op m w)
        (λ lt m' w'. loop_law left (index + 1) op m' w' (omega arith))

  -- The retries of a cloud action, whatever the provider answers: between one and four attempts; the
  -- waits between them are the first of 5, 10 and 20 seconds, one for each attempt but the last;
  -- exactly one result is notified, with the returned success and the number of attempts; the run
  -- succeeds exactly if it saw the desired state or the provider's call returned; and the provider is
  -- called only directly after a state that neither satisfies nor blocks the operation.
  pub retry_lem :
      (op : Operation) (w : W)
      → let r = execute_cloud_action_with_retry p stop_mode op w in
        (1 ≤ r.attempts)
        × (r.attempts ≤ 4)
        × (sleeps r.trace ≡ take (r.attempts - 1) (5 ∷ 10 ∷ 20 ∷ []))
        × (notices r.trace ≡ (r.success, r.attempts) ∷ [])
        × ((r.success ≡ true) ↔ Reached op r.trace)
        × Careful op none r.trace
  unfolding execute_cloud_action_with_retry
  retry_lem op w =
      let l = loop_law 3 0 op no_memory w refl in
      (
        omega (arith, l.attempts),
        l.bounded,
        first_waits _ l,
        l.notified_once,
        l.outcome,
        l.careful none,
      )
