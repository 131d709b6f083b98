-- ===== src/Node/Connecting.antt =====
-- Connecting the inputs and the outputs of a node.
use coretools.Prelude.{
  ℕ, zero, suc, ◌<◌, ◌≤◌, ◌≡◌, ◌⊎◌, inl, inr, Bool-cases, leb, refl, ◌==◌, if◌then◌else◌, pos, ◌-ℤ◌,
  some, List, [], ◌∷◌, ◌++◌, length, length-append, set, get_elem?, arith,
}
use coretools.Errors.{Error, ok, err}
use coretools.Walker.Any.{StreamWalker}
use coretools.Node.{SgNode, Trigger, connect_input, connect_output, free_outputs}

length-set {ℓ} : {A : Type ℓ} (l : List A) (i : ℕ) (x : A) → length (set l i x) ≡ length l
length-set [] i x = refl
length-set (y ∷ l) zero x = refl
length-set (y ∷ l) (suc i) x = ground (arith, length-set l i x)

get_elem-set {ℓ} :
    {A : Type ℓ} (l : List A) (i j : ℕ) (x : A)
    → i < length l
    → get_elem? (set l i x) j ≡ (if j == i then some x else get_elem? l j)
get_elem-set [] i j x h = absurd (omega arith)
get_elem-set (y ∷ l) zero zero x h = refl
get_elem-set (y ∷ l) zero (suc j) x h = ground arith
get_elem-set (y ∷ l) (suc i) zero x h = ground arith
get_elem-set (y ∷ l) (suc i) (suc j) x h = ground (arith, get_elem-set l i j x)

-- `connect_input` puts the walker and its trigger at the index and leaves the other inputs; behind
-- the node's last input it raises `TooManyInputsError`.
pub connect_input_lem :
    (node : SgNode) (i : ℕ) (w : StreamWalker) (t : Trigger)
    → ((length node.inputs ≤ i)
        × (connect_input node i w (some t) ≡ err Error.too_many_inputs_error))
      ⊎ ((i < length node.inputs)
          × ((node' : SgNode) × (connect_input node i w (some t) ≡ ok node')
              × (length node'.inputs ≡ length node.inputs)
              × ((j : ℕ)
                  → get_elem? node'.inputs j
                    ≡ (if j == i then some (w, t) else get_elem? node.inputs j))))
unfolding connect_input
connect_input_lem node i w t = elim (Bool-cases (leb (length node.inputs) i)) [
  | inl out ↦ inl (ground arith, ground arith)
  | inr within ↦ inr (
    ground arith,
    (
      record node { inputs = set node.inputs i (w, t) },
      ground arith,
      length-set node.inputs i (w, t),
      λ j. get_elem-set node.inputs i j (w, t) (ground arith),
    ),
  )
]

-- A node whose outputs are not more than it may have takes one more and still has not more, or it
-- has all that it may have and raises `TooManyOutputsError`.
pub connect_output_lem :
    (node : SgNode) (other : ℕ)
    → length node.outputs ≤ node.max_outputs
    → ((free_outputs node ≡ pos 0) × (connect_output node other ≡ err Error.too_many_outputs_error))
      ⊎ ((node' : SgNode) × (connect_output node other ≡ ok node')
          × (node'.outputs ≡ node.outputs ++ (other ∷ []))
          × (length node'.outputs ≤ node'.max_outputs))
unfolding connect_output free_outputs ◌-ℤ◌
connect_output_lem node other h = elim (Bool-cases (length node.outputs == node.max_outputs)) [
  | inl full ↦ inl (ground arith, ground arith)
  | inr room ↦ inr (
    record node { outputs = node.outputs ++ (other ∷ []) },
    ground arith,
    refl,
    ground (arith, length-append node.outputs (other ∷ [])),
  )
]
