-- ===== src/Gateway/Idempotency.antt =====
-- Duplicate submissions of an asynchronous tool (`_handle_async` of
-- apps/mcp-gateway/app/executor.py).
use nervora.Base.{
  String, ◌≡◌, refl, ap, arith, none, some, inl, inr, Option-cases, or_else, eq_refl,
}
use nervora.Base.Table.{find}
use nervora.Json.{Dict}
use nervora.Common.Ids.{Ambient, gen_job_id, gen_idempotency_key}
use nervora.Audit.Models.{IdempotencyKey, queued}
use nervora.Audit.Repository.{get_idempotency}
use nervora.Servicebus.Interface.{raised}
use nervora.ToolRegistry.Spec.{ToolSpec, ok, raise, exception}
use nervora.World.{World}
use nervora.Gateway.Request.{Executor, Request, request_id}
use nervora.Gateway.Outcome.{InvocationOutcome}
use nervora.Gateway.Queueing.{handle_async, duplicate_of, job_message, new_key}

-- The key under which a call is known: the client's, or a fresh one.
abbrev pub key_of : Request → Ambient → String
key_of r a = or_else r.idempotency_key (gen_idempotency_key a)

module _ {Q : Type 0} (x : Executor Q) (r : Request) (a : Ambient) where
  -- A key that is in the table is answered by its job, and nothing changes.
  handle_async-known :
      (spec : ToolSpec) (args : Dict) (w : World Q) (row : IdempotencyKey)
      → get_idempotency (key_of r a) w.db ≡ some row
      → handle_async x r a spec args w ≡ (ok (duplicate_of x r a spec.name row.job_id), w)
  unfolding handle_async
  handle_async-known spec args w row e = ground arith

  -- A new key is in the table afterwards, whether or not the publication succeeded.
  pub handle_async-new :
      (spec : ToolSpec) (args : Dict) (w : World Q)
      → get_idempotency (key_of r a) w.db ≡ none
      → get_idempotency (key_of r a) (handle_async x r a spec args w).1.db
        ≡ some (new_key x r a spec (key_of r a))
  unfolding handle_async find
  handle_async-new spec args w e = ground (arith, eq_refl (key_of r a))

  handle_async-new_job :
      (spec : ToolSpec) (args : Dict) (w : World Q) (o : InvocationOutcome)
      → get_idempotency (key_of r a) w.db ≡ none
      → (handle_async x r a spec args w).0 ≡ ok o
      → o.job_id ≡ some (gen_job_id a)
  unfolding handle_async
  handle_async-new_job spec args w o e h = ground arith

  -- After any call, the key is in the table with the job id that an outcome would carry.
  handle_async-known_after :
      (spec : ToolSpec) (args : Dict) (w : World Q) (o : InvocationOutcome)
      → (handle_async x r a spec args w).0 ≡ ok o
      → (row : IdempotencyKey) × (get_idempotency (key_of r a) (handle_async x r a spec args w).1.db
          ≡ some row)
        × (row.job_id ≡ o.job_id)
  handle_async-known_after spec args w o h =
      elim (Option-cases (get_idempotency (key_of r a) w.db)) [
        | inl e ↦ (
          new_key x r a spec (key_of r a),
          handle_async-new spec args w e,
          cc (handle_async-new_job spec args w o e h),
        )
        | inr (row, e) ↦
            let same = handle_async-known spec args w row e in (row, rw same e, cc (same, h))
      ]

module _ {Q : Type 0} (x : Executor Q) (r : Request) (a : Ambient) (spec : ToolSpec) (args : Dict)
    (w : World Q) (text : String) (e : get_idempotency (key_of r a) w.db ≡ none)
    (failed : x.queue.publish (job_message x r a spec (gen_job_id a) (key_of r a) args) w.queue
      ≡ raised text) where
  lost_raise : (handle_async x r a spec args w).0 ≡ raise (exception text)
  unfolding handle_async
  lost_raise = ground arith

  lost_queue : (handle_async x r a spec args w).1.queue ≡ w.queue
  unfolding handle_async
  lost_queue = ground arith

module _ {Q : Type 0} (x : Executor Q) (r r' : Request) (a a' : Ambient) where
  -- If a submission returns an outcome, a second one under the same key, on the state that the
  -- first has left, returns a queued outcome with the first one's job id, and changes neither the
  -- database nor the queue: whatever tool, arguments and caller it comes with.
  pub handle_async_twice :
      (spec spec' : ToolSpec) (args args' : Dict) (w : World Q) (o : InvocationOutcome)
      → (handle_async x r a spec args w).0 ≡ ok o
      → key_of r' a' ≡ key_of r a
      → (o' : InvocationOutcome) × ((handle_async x r' a' spec' args'
            (handle_async x r a spec args w).1).0
          ≡ ok o')
        × (o'.job_id ≡ o.job_id)
        × (o'.decision ≡ queued)
        × (o'.request_id ≡ request_id x r' a')
        × ((handle_async x r' a' spec' args' (handle_async x r a spec args w).1).1
            ≡ (handle_async x r a spec args w).1)
  handle_async_twice spec spec' args args' w o h same =
      let (row, found, job) = handle_async-known_after x r a spec args w o h in
      let answer =
        handle_async-known x r' a' spec' args' (handle_async x r a spec args w).1 row
          (rw same found) in
      (
        duplicate_of x r' a' spec'.name row.job_id,
        ap (λ p. p.0) answer,
        job,
        refl,
        refl,
        ap (λ p. p.1) answer,
      )

  -- If the key is new and the publication raises, the call fails and the queue is as it was, but
  -- the key stays reserved: a submission under it on the state that is left is answered as
  -- queued, with the job's id, and publishes nothing either.
  pub handle_async_lost :
      (spec spec' : ToolSpec) (args args' : Dict) (w : World Q) (text : String)
      → get_idempotency (key_of r a) w.db ≡ none
      → x.queue.publish (job_message x r a spec (gen_job_id a) (key_of r a) args) w.queue
        ≡ raised text
      → key_of r' a' ≡ key_of r a
      → ((handle_async x r a spec args w).0 ≡ raise (exception text))
        × ((handle_async x r a spec args w).1.queue ≡ w.queue)
        × (handle_async x r' a' spec' args' (handle_async x r a spec args w).1 ≡ (
          ok (duplicate_of x r' a' spec'.name (some (gen_job_id a))),
          (handle_async x r a spec args w).1,
        ))
  handle_async_lost spec spec' args args' w text e failed same = (
    lost_raise x r a spec args w text e failed,
    lost_queue x r a spec args w text e failed,
    handle_async-known x r' a' spec' args' (handle_async x r a spec args w).1
        (new_key x r a spec (key_of r a)) (rw same (handle_async-new x r a spec args w e)),
  )
