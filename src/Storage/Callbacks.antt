-- ===== src/Storage/Callbacks.antt =====
-- storage.c: the list of callbacks for a change of the database. A callback is known by its
-- address; `calloc` says whether the allocation of a node succeeds.
use es_inverter.Base.{
  ℕ, ◌≡◌, ◌≢◌, refl, sym, Bool, true, false, List, [], ◌∷◌, arith, if◌then◌else◌, ◌==◌, All,
  Bool-cases, ◌⊎◌, inl, inr, ◌↔◌,
}
use es_inverter.Rs232.Memory.{Outcome, done, fault}

-- The result tells whether a node was removed.
unfoldable pub remove_node : ℕ → List ℕ → Bool × List ℕ
remove_node cb [] = (false, [])
remove_node cb (node ∷ rest) =
    let removed : Bool × List ℕ = remove_node cb rest in
    if node == cb then (true, rest) else (removed.0, node ∷ removed.1)

unfoldable pub insert_node : Bool → ℕ → List ℕ → Outcome (List ℕ)
insert_node calloc cb nodes = if calloc then done (cb ∷ nodes) else fault

unfoldable pub storage_register_on_changed_callback : Bool → ℕ → List ℕ → Outcome (List ℕ)
unfolding insert_node
storage_register_on_changed_callback calloc cb nodes =
    insert_node calloc cb (remove_node cb nodes).1

unfoldable pub storage_unregister_on_changed_callback : ℕ → List ℕ → List ℕ
storage_unregister_on_changed_callback cb nodes = (remove_node cb nodes).1

-- No callback is on the list twice.
abbrev pub IsUnique : List ℕ → Type 0
IsUnique [] = Unit
IsUnique (node ∷ rest) = All (λ other. other ≢ node) rest × IsUnique rest

-- A callback is on the list.
abbrev pub Has : ℕ → List ℕ → Type 0
Has cb [] = ⊥
Has cb (node ∷ rest) = (node ≡ cb) ⊎ Has cb rest

remove_node-All :
    (P : ℕ → Type 0) (cb : ℕ) (nodes : List ℕ) → All P nodes → All P (remove_node cb nodes).1
unfolding remove_node
remove_node-All P cb [] h = h
remove_node-All P cb (node ∷ rest) h = elim (Bool-cases (node == cb)) [
  | inl same ↦ rw same h.1
  | inr other ↦ rw other (h.0, remove_node-All P cb rest h.1)
]

pub remove_node-IsUnique :
    (cb : ℕ) (nodes : List ℕ) → IsUnique nodes → IsUnique (remove_node cb nodes).1
unfolding remove_node
remove_node-IsUnique cb [] h = h
remove_node-IsUnique cb (node ∷ rest) h = elim (Bool-cases (node == cb)) [
  | inl same ↦ rw same h.1
  | inr other ↦
      rw other (remove_node-All (λ o. o ≢ node) cb rest h.0, remove_node-IsUnique cb rest h.1)
]

-- The callback itself is gone.
pub remove_node-gone :
    (cb : ℕ) (nodes : List ℕ) → IsUnique nodes → All (λ other. other ≢ cb) (remove_node cb nodes).1
unfolding remove_node
remove_node-gone cb [] h = h
remove_node-gone cb (node ∷ rest) h = elim (Bool-cases (node == cb)) [
  | inl same ↦ let e : node ≡ cb = ground arith in rw (same, ← e) h.0
  | inr other ↦ rw other ((λ e. ground arith), remove_node-gone cb rest h.1)
]

-- The others stay.
remove_node-Has :
    (cb other : ℕ) (nodes : List ℕ)
    → other ≢ cb
    → Has other (remove_node cb nodes).1 ↔ Has other nodes
unfolding remove_node
remove_node-Has cb other [] ne = ((λ h. h), (λ h. h))
remove_node-Has cb other (node ∷ rest) ne =
    let (to, from) = remove_node-Has cb other rest ne in
    elim (Bool-cases (node == cb)) [
      | inl same ↦ rw same (inr, λ h. elim h [ inl e ↦ absurd (ground arith) | inr k ↦ k ])
      | inr differs ↦ rw differs (
        λ h. elim h [ inl e ↦ inl e | inr k ↦ inr (to k) ],
        λ h. elim h [ inl e ↦ inl e | inr k ↦ inr (from k) ],
      )
    ]

-- On a list where no callback stands twice, registering a callback puts it on the list and
-- unregistering it then takes it off; either way no callback stands twice, and every other callback
-- is on the list just when it was before.
pub storage_register_on_changed_callback-IsUnique :
    (cb other : ℕ) (nodes : List ℕ)
    → IsUnique nodes
    → other ≢ cb
    → (after : List ℕ) × (storage_register_on_changed_callback true cb nodes ≡ done after)
      × Has cb after
      × IsUnique after
      × (Has other after ↔ Has other nodes)
      × All (λ left. left ≢ cb) (storage_unregister_on_changed_callback cb after)
      × IsUnique (storage_unregister_on_changed_callback cb after)
      × (Has other (storage_unregister_on_changed_callback cb after) ↔ Has other nodes)
unfolding storage_register_on_changed_callback storage_unregister_on_changed_callback insert_node
storage_register_on_changed_callback-IsUnique cb other nodes h ne =
    let kept : List ℕ = (remove_node cb nodes).1 in
    let unique : IsUnique (cb ∷ kept) =
      (remove_node-gone cb nodes h, remove_node-IsUnique cb nodes h) in
    let (to, from) = remove_node-Has cb other nodes ne in
    let others : Has other (cb ∷ kept) ↔ Has other nodes =
      ((λ k. elim k [ inl e ↦ absurd (ne (sym e)) | inr l ↦ to l ]), (λ k. inr (from k))) in
    let left = remove_node-Has cb other (cb ∷ kept) ne in
    (
      cb ∷ kept,
      refl,
      inl refl,
      unique,
      others,
      remove_node-gone cb (cb ∷ kept) unique,
      remove_node-IsUnique cb (cb ∷ kept) unique,
      ((λ k. others.0 (left.0 k)), (λ k. left.1 (others.1 k))),
    )
