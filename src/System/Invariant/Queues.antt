-- ===== src/System/Invariant/Queues.antt =====
-- What a Pop or a Push that has returned has done, from the theorems on the calls.
use kombiner.Prelude.{
  ℕ, zero, suc, ◌≡◌, ◌≢◌, ◌∙◌, refl, sym, ap, subst, ◌⊎◌, inl, inr, Option, none, some, arith,
  length-perm, Outcome, value, Yields-inv,
}
use kombiner.Api.Placement.{PlacementRequest}
use kombiner.Queue.Prioritized
use kombiner.Queue.PlacementRequest
use kombiner.Queue.PlacementRequest.{PlacementRequestQueue, run_handlers}
use kombiner.Queue.PlacementRequest.Contents.{
  IsValid, Popped, Pushed, pop-empty, pop-Popped, push-Pushed,
}

-- A queue's Pop: nil from an empty queue, or one request less.
pub pop-cases :
    (q q' : PlacementRequestQueue ℕ) (o : Option PlacementRequest)
    → IsValid q
    → PlacementRequest.pop q ≡ value (o, q')
    → ((PlacementRequest.len q ≡ 0) × (o ≡ none) × (q ≡ q')) ⊎ Popped q (o, q')
pop-cases q q' o valid e = go (PlacementRequest.len q) refl
  where
    result :
        Outcome (Option PlacementRequest × PlacementRequestQueue ℕ)
        → Option PlacementRequest × PlacementRequestQueue ℕ
    result (value r) = r
    result _ = (o, q')

    go :
        (n : ℕ)
        → PlacementRequest.len q ≡ n
        → ((PlacementRequest.len q ≡ 0) × (o ≡ none) × (q ≡ q')) ⊎ Popped q (o, q')
    go zero size =
        let same : (none, q) ≡ (o, q') = ap result (sym (pop-empty q size) ∙ e) in
        inl (size, sym (ap (λ p. p.0) same), ap (λ p. p.1) same)
    go (suc n) size =
        let (r, run, popped) = Yields-inv (pop-Popped n q size valid) in
        let same : r ≡ (o, q') = ap result (sym run ∙ e) in
        inr (subst (λ p. Popped q p) same popped)

pub Popped-busy :
    (q : PlacementRequestQueue ℕ) (r : Option PlacementRequest × PlacementRequestQueue ℕ)
    → Popped q r
    → PlacementRequest.len q ≢ 0
unfolding PlacementRequest.len Prioritized.len
Popped-busy q r p e = absurd (omega (arith, length-perm p.same))

pub push-result :
    (q q' : PlacementRequestQueue ℕ) (pr : PlacementRequest) (n n' : ℕ)
    → IsValid q
    → PlacementRequest.push q (some pr) n ≡ value (q', n')
    → Pushed q pr n (q', n')
push-result q q' pr n n' valid e =
    let (r, run, pushed) = Yields-inv (push-Pushed q pr n valid) in
    subst (λ p. Pushed q pr n p) (ap result (sym run ∙ e)) pushed
  where
    result : Outcome (PlacementRequestQueue ℕ × ℕ) → PlacementRequestQueue ℕ × ℕ
    result (value r) = r
    result _ = (q', n')
