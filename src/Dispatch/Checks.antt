-- ===== src/Dispatch/Checks.antt =====
-- What the checks of a dispatch have passed, each for itself.
use oria.Base.{
  not-false, ◌≤◌, ◌≡◌, refl, ap, inl, inr, Bool, true, false, ◌&&◌, some, ok, raise_if, is_none, is,
  is-yes, same_text, String_discrete, ◌==◌, Bool-cases, passed, arith,
}
use oria.Jobs.Lease.{JobLeaseToken}
use oria.Dispatch.{
  Operation-discrete, DispatchRequest, DispatchObservation, DispatchError, valid_operation,
  valid_token, validate_request, is_admitted, is_not_found, valid_fence, fence_in_scope,
  check_receipt, validate_observation, is_ahead, validate_dispatch_history, DispatchOutcome,
  outcome_of, reconcile_dispatch, invalid_fields,
}

pub both_true : (a b : Bool) → (a && b) ≡ true → (a ≡ true) × (b ≡ true)
both_true true true h = (refl, refl)
both_true true false h = cc
both_true false b h = cc

pub request_operation :
    (request : DispatchRequest)
    → validate_request request ≡ ok tt
    → valid_operation request.operation ≡ true
unfolding validate_request
request_operation request h =
    let (p, _) = passed _ invalid_fields _ h in
    (both_true (valid_operation request.operation) (valid_token request.fence) (not-false _ p)).0

-- What a valid observation has passed.
pub observation_parts :
    (o : DispatchObservation)
    → validate_observation o ≡ ok tt
    → (valid_operation o.operation ≡ true)
      × (valid_fence o.accepted_fence ≡ true)
      × ((is_admitted o.state && is_none o.accepted_fence) ≡ false)
      × (fence_in_scope o.operation o.accepted_fence ≡ true)
      × (check_receipt o ≡ ok tt)
unfolding validate_observation
observation_parts o h = ground arith

pub history_parts :
    (request : DispatchRequest) (o : DispatchObservation)
    → validate_dispatch_history request o ≡ ok tt
    → (validate_request request ≡ ok tt)
      × (is (Operation-discrete request.operation o.operation) ≡ true)
      × (is_ahead o.accepted_fence request.fence ≡ false)
unfolding validate_dispatch_history
history_parts request o h = ground arith

pub reconcile_parts :
    (request : DispatchRequest) (o : DispatchObservation) (outcome : DispatchOutcome)
    → reconcile_dispatch request o ≡ ok outcome
    → (validate_observation o ≡ ok tt)
      × (validate_dispatch_history request o ≡ ok tt)
      × (outcome_of o.state ≡ outcome)
unfolding reconcile_dispatch
reconcile_parts request o outcome h = ground arith

and_false : (a b : Bool) → b ≡ false → (a && b) ≡ false
and_false true b h = h
and_false false b h = refl

pub observation_made :
    (o : DispatchObservation)
    → valid_operation o.operation ≡ true
    → valid_fence o.accepted_fence ≡ true
    → is_none o.accepted_fence ≡ false
    → is_not_found o.state ≡ false
    → fence_in_scope o.operation o.accepted_fence ≡ true
    → check_receipt o ≡ ok tt
    → validate_observation o ≡ ok tt
unfolding validate_observation
observation_made o h1 h2 h3 h4 h5 h6 =
    rw (h1, h2, and_false (is_admitted o.state) (is_none o.accepted_fence) h3, h4, h5, h6) refl

pub reconcile_made :
    (request : DispatchRequest) (o : DispatchObservation) (outcome : DispatchOutcome)
    → validate_observation o ≡ ok tt
    → validate_request request ≡ ok tt
    → is (Operation-discrete request.operation o.operation) ≡ true
    → is_ahead o.accepted_fence request.fence ≡ false
    → outcome_of o.state ≡ outcome
    → reconcile_dispatch request o ≡ ok outcome
unfolding reconcile_dispatch validate_dispatch_history
reconcile_made request o outcome h1 h2 h3 h4 h5 = rw (h1, h2, h3, h4) (ap ok h5)

pub passed_alone : (b : Bool) (e : DispatchError) → raise_if b e ≡ ok tt → b ≡ false
passed_alone true e h = cc
passed_alone false e h = refl

pub one_owner :
    (accepted fence : JobLeaseToken)
    → accepted.epoch ≡ fence.epoch
    → is_ahead (some accepted) fence ≡ false
    → same_text accepted.owner fence.owner ≡ true
one_owner accepted fence e h = ground arith

pub behind_fence :
    (accepted fence : JobLeaseToken)
    → accepted.epoch ≤ fence.epoch
    → (accepted.epoch ≡ fence.epoch → accepted.owner ≡ fence.owner)
    → is_ahead (some accepted) fence ≡ false
behind_fence accepted fence h k = elim (Bool-cases (accepted.epoch == fence.epoch)) [
  | inl same ↦
      let q = is-yes (String_discrete accepted.owner fence.owner) (k (ground arith)) in ground arith
  | inr other ↦ ground arith
]
