-- ===== src/Filter/Receive/Meaning.antt =====
-- What `receive` comes to.
use mathlib.Core.Option
use myth.Prelude.{Option, some, ◌≡◌, ◌↔◌, refl, ap}
use myth.Http.{Http}
use myth.Request.{Request, RequestState}
use myth.Outcome.{Outcome, success, error, forward, RequestOutcome}
use myth.Future.{Poll, ready, waiting, panicked}
use myth.Future.Sequence.{step, map_iff}
use myth.Tuple.{Append}
use myth.Filter.{Filter, Runs}
use myth.Filter.Receive.{receiving, received, finish, poll_receive, receive_filter}

module _ {H : Http} {I S R : Type 0} (T : Filter H I S) (in_front : Append R I)
    (out_front : Append R S) (r : Request H) where
  -- An outcome with the front put before its success, or before the input that it hands back.
  abbrev pub with_front : R → Outcome H I S → Outcome H in_front.Both out_front.Both
  with_front front (success s) = success (out_front.join front s)
  with_front front (error e) = error e
  with_front front (forward c w) = forward (in_front.join front c) w

  abbrev pub put_front : R → RequestOutcome H I S → RequestOutcome H in_front.Both out_front.Both
  put_front front o = record {
    request_state = o.request_state;
    outcome = with_front front o.outcome;
  }

  received-put_front :
      (front : R) (st : RequestState H) (o : Outcome H I S)
      → received T in_front out_front front st o
        ≡ record { request_state = st; outcome = with_front front o }
  unfolding received
  received-put_front front st (success s) = refl
  received-put_front front st (error e) = refl
  received-put_front front st (forward c w) = refl

  finish-put_front :
      (front : R) (o : RequestOutcome H I S)
      → finish T in_front out_front (some front) o ≡ ready (put_front front o)
  unfolding finish
  finish-put_front front o = ap ready (received-put_front front o.request_state o.outcome)

  poll-receive :
      (receive : R) (f : T.Future)
      → poll_receive T in_front out_front (receiving f (some receive))
        ≡ step (λ g. receiving g (some receive)) (λ o. ready (put_front receive o)) (T.poll f)
  unfolding poll_receive
  poll-receive receive f = alike (T.poll f)
    where
      alike :
          (p : Poll T.Future (RequestOutcome H I S))
          → (elim p [
            | ready o ↦ finish T in_front out_front (some receive) o
            | waiting g ↦ waiting (receiving g (some receive))
            | panicked ↦ panicked
          ])
            ≡ step (λ g. receiving g (some receive)) (λ o. ready (put_front receive o)) p
      alike (ready o) = finish-put_front receive o
      alike (waiting g) = refl
      alike panicked = refl

  -- On an input joined of a front and an input of `T`, the filter comes to what `T` comes to on its
  -- input, with the front put before the success, or before the input that a forward hands back.
  pub receive-Runs :
      (st : RequestState H) (front : R) (input : I)
      (o : Option (RequestOutcome H in_front.Both out_front.Both))
      → Runs (receive_filter T in_front out_front) r st (in_front.join front input) o ↔ (
          (o₁ : Option (RequestOutcome H I S)) × Runs T r st input o₁
          × (o ≡ Option.map (put_front front) o₁))
  unfolding receive_filter
  receive-Runs st front input o = rw (in_front.part-join front input) (
      map_iff T.poll (poll_receive T in_front out_front) (λ f. receiving f (some front))
        (put_front front) (poll-receive front) (T.execute r st input) o)
