-- ===== src/Inbox/Consumption.antt =====
-- In any interleaving of registrations, events and consumptions a wait is consumed at most once.
use oria.Base.{
  String, sym, subst, inl, inr, Option, List, [], ◌∷◌, Reading, naive, aware, Result-cases,
}
use oria.Inbox.{Event, Payload, parse_event, ExternalWait, Identity}
use oria.Inbox.Store.{Store, get_wait, consume_body, consume_matched}
use oria.Inbox.Service.{Subjects, register_wait, process}
use oria.Inbox.Allowance.{ConsumedOnce, register_found-Once, process_parsed-Once}
use oria.Inbox.Claims.{claimed-bounded, consume_body-Claim}

-- What may happen to the tables.
pub data Call : Type 0 where
  registers : ExternalWait → Call
  processes : Option Event → Option ExternalWait → Reading → Call
  consumes : Identity → Event → Reading → Call

module _ (subjects : Subjects) (lower : String → String) (hash : Payload → String) where
  unfoldable pub call : Store → Call → Store
  call store (registers wait) = (register_wait store wait).1
  call store (processes value wait reading) =
      (process subjects lower hash store value wait reading).1
  call store (consumes identity event reading) =
      (consume_matched hash store identity event reading).1

  unfoldable pub run : Store → List Call → Store
  run store [] = store
  run store (c ∷ cs) = run (call store c) cs

  consume_matched-Once :
      (store : Store) (identity : Identity) (event : Event) (reading : Reading)
      → ConsumedOnce store
      → ConsumedOnce (consume_matched hash store identity event reading).1
  unfolding consume_matched
  consume_matched-Once store identity event naive once = once
  consume_matched-Once store identity event (aware now) once =
      elim (Result-cases (consume_body hash store identity event now)) [
        | inr (x, failed) ↦ rw failed once
        | inl ((out, next), done) ↦
            let (wait, claim, made) =
              consume_body-Claim hash store identity event now out next done in
            rw done (
              subst ConsumedOnce (sym made) (record {
                bounded = λ t w. claimed-bounded store identity wait now t w once claim;
              }))
      ]

  call-Once : (store : Store) (c : Call) → ConsumedOnce store → ConsumedOnce (call store c)
  unfolding call register_wait process
  call-Once store (registers wait) once =
      register_found-Once store wait (get_wait store wait.tenant_id wait.wait_id) once
  call-Once store (processes value wait reading) once =
      process_parsed-Once subjects lower hash store (parse_event value) wait reading once
  call-Once store (consumes identity event reading) once =
      consume_matched-Once store identity event reading once

  -- In any history of registrations, events and consumptions, from tables where it holds, at most one
  -- record of the inbox is consumed for a wait, and none for a wait that is open or not there.
  pub run-ConsumedOnce :
      (store : Store) (cs : List Call) → ConsumedOnce store → ConsumedOnce (run store cs)
  unfolding run
  run-ConsumedOnce store [] once = once
  run-ConsumedOnce store (c ∷ cs) once = run-ConsumedOnce (call store c) cs (call-Once store c once)
