-- ===== src/Pipeline/Control/NodeLoss.antt =====
-- What `detect_node_loss` of src/pipeline/inference_pipeline.cpp leaves active.
use socrates.Prelude.{
  ℕ, zero, suc, ◌≡◌, sym, ap, subst, ◌⊎◌, inl, inr, true, false, Bool-cases, Option, some, none,
  List, [], ◌∷◌, Text, text_eq, arith,
}
use socrates.Pipeline.{ActiveRequest}
use socrates.Pipeline.Store.{Pipeline, get_state, update_state, on_state, find}
use socrates.Pipeline.Control.{uses, lose_node, lose_node_each, detect_node_loss}

abbrev Off : Text → ActiveRequest → Type 0
Off node s = s.active ≡ true → uses node s ≡ false

abbrev Clear : Text → List ActiveRequest → ℕ → Type 0
Clear node states j = (s : ActiveRequest) → get_state states j ≡ some s → Off node s

lose_node-Off : (node : Text) (s : ActiveRequest) → Off node (lose_node node s)
unfolding lose_node
lose_node-Off node s = elim (Bool-cases (uses node s)) [
  | inl e ↦ let off : (lose_node node s).active ≡ false = rw e in λ h. absurd (cc)
  | inr e ↦ let same : lose_node node s ≡ s = rw e in subst (Off node) (sym same) (λ h. e)
]

abbrev request_or : ActiveRequest → Option ActiveRequest → ActiveRequest
request_or d none = d
request_or d (some s) = s

update_state-Clear :
    (node : Text) (states : List ActiveRequest) (i j : ℕ)
    → Clear node states j ⊎ (i ≡ j)
    → Clear node (update_state i (lose_node node) states) j
unfolding get_state update_state
update_state-Clear node [] i j c s h = absurd (cc)
update_state-Clear node (x ∷ states) zero zero c s h =
    subst (Off node) (ap (request_or x) h) (lose_node-Off node x)
update_state-Clear node (x ∷ states) zero (suc j) (inl c) s h = c s h
update_state-Clear node (x ∷ states) zero (suc j) (inr e) s h = absurd (omega arith)
update_state-Clear node (x ∷ states) (suc i) zero (inl c) s h = c s h
update_state-Clear node (x ∷ states) (suc i) zero (inr e) s h = absurd (omega arith)
update_state-Clear node (x ∷ states) (suc i) (suc j) (inl c) s h =
    update_state-Clear node states i j (inl c) s h
update_state-Clear node (x ∷ states) (suc i) (suc j) (inr e) s h =
    update_state-Clear node states i j (inr (omega arith)) s h

abbrev number_or : Option ℕ → ℕ
number_or none = 0
number_or (some n) = n

index_of : {i j : ℕ} → some i ≡ some j → i ≡ j
index_of h = ap number_or h

each-Clear :
    (node : Text) (id : Text) (m : List (Text × ℕ)) (p : Pipeline) (j : ℕ)
    → Clear node p.states j ⊎ (find id m ≡ some j)
    → Clear node (lose_node_each node m p).states j
unfolding lose_node_each find
each-Clear node id [] p j (inl c) = c
each-Clear node id [] p j (inr e) = absurd (cc)
each-Clear node id ((k, i) ∷ m) p j (inl c) =
    each-Clear node id m (on_state i (lose_node node) p) j
      (inl (update_state-Clear node p.states i j (inl c)))
each-Clear node id ((k, i) ∷ m) p j (inr e) = elim (Bool-cases (text_eq k id)) [
  | inl t ↦
      each-Clear node id m (on_state i (lose_node node) p) j
        (inl (update_state-Clear node p.states i j (inr (index_of (rw t at e)))))
  | inr t ↦ each-Clear node id m (on_state i (lose_node node) p) j (inr (rw t at e))
]

-- After the loss of a node, no request in the map that is still active has a stage on that node.
pub detect_node_loss-clears :
    (node : Text) (p : Pipeline) (id : Text) (j : ℕ) (s : ActiveRequest)
    → find id p.active_requests ≡ some j
    → get_state (detect_node_loss node p).states j ≡ some s
    → s.active ≡ true
    → uses node s ≡ false
unfolding detect_node_loss
detect_node_loss-clears node p id j s known found active =
    each-Clear node id p.active_requests p j (inr known) s found active
