-- ===== src/TestTasks/Ordered.antt =====
-- The order of tests by identifier that get_available_test_tasks (alws/crud/test.py) takes ten of.
use albs_web_server.Prelude.{
  ℕ, zero, suc, ◌≤◌, List, [], ◌∷◌, length, take, nat_eq, leb, leb→le, leb→gt, ◌≡◌, refl, ap, inl,
  inr, Memᴰ, mem_cons-cases, Bool-cases, arith,
}
use albs_web_server.TestTasks.Db.{test_status_eq, TestTask, insert_by_id, order_by_id}

-- Every row has an identifier of at most those behind it.
pub IsOrdered : List TestTask → Type 0
IsOrdered [] = Unit {0}
IsOrdered (x ∷ xs) = ((t : TestTask) → Memᴰ t xs → x.id ≤ t.id) × IsOrdered xs

mem-insert_by_id :
    (x : TestTask) (xs : List TestTask) {t : TestTask}
    → Memᴰ t (insert_by_id x xs)
    → Memᴰ t (x ∷ xs)
unfolding insert_by_id
mem-insert_by_id x [] m = m
mem-insert_by_id x (y ∷ ys) m = elim (Bool-cases (leb x.id y.id)) [
  | inl le ↦ rw le at m
  | inr gt ↦ elim (mem_cons-cases (rw gt at m)) [
    | inl e ↦ Memᴰ.tail (Memᴰ.head e)
    | inr r ↦ elim (mem_cons-cases (mem-insert_by_id x ys r)) [
      | inl e ↦ Memᴰ.head e
      | inr r' ↦ Memᴰ.tail (Memᴰ.tail r')
    ]
  ]
]

insert_by_id-mem :
    (x : TestTask) (xs : List TestTask) {t : TestTask}
    → Memᴰ t (x ∷ xs)
    → Memᴰ t (insert_by_id x xs)
unfolding insert_by_id
insert_by_id-mem x [] m = m
insert_by_id-mem x (y ∷ ys) m = elim (Bool-cases (leb x.id y.id)) [
  | inl le ↦ rw le m
  | inr gt ↦ rw gt (elim (mem_cons-cases m) [
    | inl e ↦ Memᴰ.tail (insert_by_id-mem x ys (Memᴰ.head e))
    | inr r ↦ elim (mem_cons-cases r) [
      | inl e ↦ Memᴰ.head e
      | inr r' ↦ Memᴰ.tail (insert_by_id-mem x ys (Memᴰ.tail r'))
    ]
  ])
]

insert_by_id-IsOrdered :
    (x : TestTask) (xs : List TestTask) → IsOrdered xs → IsOrdered (insert_by_id x xs)
unfolding insert_by_id IsOrdered
insert_by_id-IsOrdered x [] o = (λ t m. elim m [ ], tt)
insert_by_id-IsOrdered x (y ∷ ys) o = elim (Bool-cases (leb x.id y.id)) [
  | inl le ↦ rw le (
    λ t m. elim (mem_cons-cases m) [
      | inl e ↦ omega (arith, ap (λ (b : TestTask). b.id) e, leb→le x.id y.id le)
      | inr r ↦ omega (arith, o.0 t r, leb→le x.id y.id le)
    ],
    o,
  )
  | inr gt ↦ rw gt (
    λ t m. elim (mem_cons-cases (mem-insert_by_id x ys m)) [
      | inl e ↦ omega (arith, ap (λ (b : TestTask). b.id) e, leb→gt x.id y.id gt)
      | inr r ↦ o.0 t r
    ],
    insert_by_id-IsOrdered x ys o.1,
  )
]

pub order_by_id-IsOrdered : (xs : List TestTask) → IsOrdered (order_by_id xs)
unfolding order_by_id IsOrdered
order_by_id-IsOrdered [] = tt
order_by_id-IsOrdered (x ∷ xs) =
    insert_by_id-IsOrdered x (order_by_id xs) (order_by_id-IsOrdered xs)

pub mem-order_by_id : (xs : List TestTask) {t : TestTask} → Memᴰ t (order_by_id xs) → Memᴰ t xs
unfolding order_by_id
mem-order_by_id [] m = m
mem-order_by_id (x ∷ xs) m = elim (mem_cons-cases (mem-insert_by_id x (order_by_id xs) m)) [
  | inl e ↦ Memᴰ.head e
  | inr r ↦ Memᴰ.tail (mem-order_by_id xs r)
]

pub order_by_id-mem : (xs : List TestTask) {t : TestTask} → Memᴰ t xs → Memᴰ t (order_by_id xs)
unfolding order_by_id
order_by_id-mem [] m = m
order_by_id-mem (x ∷ xs) m =
    insert_by_id-mem x (order_by_id xs)
      (elim (mem_cons-cases m) [ inl e ↦ Memᴰ.head e | inr r ↦ Memᴰ.tail (order_by_id-mem xs r) ])

pub length-take-le {ℓ} : {A : Type ℓ} (n : ℕ) (xs : List A) → length (take n xs) ≤ n
length-take-le zero xs = omega arith
length-take-le (suc n) [] = omega arith
length-take-le (suc n) (x ∷ xs) = omega (arith, length-take-le n xs)

pub mem-of_take {ℓ} : {A : Type ℓ} (n : ℕ) (xs : List A) {a : A} → Memᴰ a (take n xs) → Memᴰ a xs
mem-of_take zero xs m = elim m [ ]
mem-of_take (suc n) [] m = elim m [ ]
mem-of_take (suc n) (x ∷ xs) m = elim (mem_cons-cases m) [
  | inl e ↦ Memᴰ.head e
  | inr r ↦ Memᴰ.tail (mem-of_take n xs r)
]

-- What is not among the first ones stands behind a full number of them.
pub left_out :
    (n : ℕ) (xs : List TestTask) (r : TestTask)
    → IsOrdered xs
    → Memᴰ r xs
    → ¬ Memᴰ r (take n xs)
    → (length (take n xs) ≡ n) × ((t : TestTask) → Memᴰ t (take n xs) → t.id ≤ r.id)
unfolding IsOrdered
left_out n [] r o m out = elim m [ ]
left_out zero (x ∷ xs) r o m out = (refl, λ t k. elim k [ ])
left_out (suc n) (x ∷ xs) r o m out = elim (mem_cons-cases m) [
  | inl e ↦ absurd (out (Memᴰ.head e))
  | inr there ↦
      let (full, below) = left_out n xs r o.1 there (λ k. out (Memᴰ.tail k)) in
      (
        ap suc full,
        λ t k. elim (mem_cons-cases k) [
          | inl e ↦ omega (arith, ap (λ (b : TestTask). b.id) e, o.0 r there)
          | inr k' ↦ below t k'
        ],
      )
]
