-- ===== src/Subscriptions/Unsubscribe.antt =====
-- Which subscription an unsubscription ends.
use pyrpckit.Prelude.{
  ==_iff, Bool, Bool-cases, List, Option, Option-cases, String, [], ap, arith, eq_iff,
  if◌then◌else◌, inl, inr, none, refl, some, str_eq, subst, sym, true, ℕ, ◌==◌, ◌∙◌, ◌∷◌, ◌≡◌, ◌≢◌,
}
use pyrpckit.Json.{Fields, Json, arr, bool, float, get, int, null, obj, str}
use pyrpckit.Connection.Rejection.{RpcError}
use pyrpckit.Wire.Envelope.{RequestId}
use pyrpckit.Subscriptions.{
  Session, SubscriptionTask, cancel_task, find_by_text, named_task, send, unsubscribe, update_task,
}

-- The flag of subscription `n`, if its task runs.
unfoldable pub cancelled_of : ℕ → List SubscriptionTask → Option Bool
cancelled_of n [] = none
cancelled_of n (t ∷ ts) = if t.number == n then some t.cancelled else cancelled_of n ts

cancelled_of-update :
    (n m : ℕ) (ts : List SubscriptionTask)
    → cancelled_of n (update_task m cancel_task ts) ≡ (
        if m == n
        then (elim (cancelled_of n ts) [ none ↦ none | some b ↦ some true ])
        else cancelled_of n ts)
unfolding cancelled_of update_task
cancelled_of-update n m [] = ground arith
cancelled_of-update n m (t ∷ ts) = ground (arith, cancelled_of-update n m ts)

module _ (id_text : ℕ → String) (params_model : String → Option (Fields → Option RpcError)) where
  find_by_text-number :
      (key : String) (ts : List SubscriptionTask) (t : SubscriptionTask)
      → find_by_text id_text params_model key ts ≡ some t
      → id_text t.number ≡ key
  unfolding find_by_text
  find_by_text-number key [] t h = cc
  find_by_text-number key (k ∷ ts) t h = elim (Bool-cases (str_eq (id_text k.number) key)) [
    | inl hit ↦
        let same : k ≡ t = ground arith in
        subst (λ j. id_text j.number ≡ key) same ((eq_iff (id_text k.number) key).0 hit)
    | inr miss ↦ find_by_text-number key ts t (ground arith)
  ]

  named_task_lem :
      (name : String) (value : Option Json) (s : Session) (t : SubscriptionTask)
      → named_task id_text params_model name value s ≡ some t
      → value ≡ some (str (id_text t.number))
  unfolding named_task
  named_task_lem name (some (str key)) s t h =
      elim (Option-cases (find_by_text id_text params_model key s.tasks)) [
        | inl absent ↦ absurd (ground arith)
        | inr (k, found) ↦
            let same : k ≡ t = ground arith in
            let at_t : find_by_text id_text params_model key s.tasks ≡ some t =
              found ∙ ap some same in
            ap (λ x. some (str x)) (sym (find_by_text-number key s.tasks t at_t))
      ]
  named_task_lem name none s t h = cc
  named_task_lem name (some null) s t h = cc
  named_task_lem name (some (bool b)) s t h = cc
  named_task_lem name (some (int n)) s t h = cc
  named_task_lem name (some (float x)) s t h = cc
  named_task_lem name (some (arr vs)) s t h = cc
  named_task_lem name (some (obj fs)) s t h = cc

  -- An unsubscription changes the task of a subscription only if its id is the text that the
  -- unsubscription names.
  pub unsubscribe_only_named :
      (name : String) (raw : Fields) (request : RequestId) (s : Session) (n : ℕ)
      → get "subscriptionId" raw ≢ some (str (id_text n))
      → cancelled_of n (unsubscribe id_text params_model name raw request s).tasks
        ≡ cancelled_of n s.tasks
  unfolding unsubscribe send
  unsubscribe_only_named name raw request s n other =
      elim (Option-cases (named_task id_text params_model name (get "subscriptionId" raw) s)) [
        | inl unknown ↦ rw (unknown, unsubscribe) refl
        | inr (t, known) ↦ elim (Bool-cases (t.number == n)) [
          | inl same ↦ absurd (
              other (
                subst (λ k. get "subscriptionId" raw ≡ some (str (id_text k)))
                  ((==_iff t.number n).0 same)
                  (named_task_lem name (get "subscriptionId" raw) s t known)))
          | inr apart ↦
              rw (known, unsubscribe) (rw (cancelled_of-update n t.number s.tasks) (rw apart refl))
        ]
      ]
