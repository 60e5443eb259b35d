-- ===== src/SlabMulti/Find.antt =====
-- The search of `ImplSlabMulti::Cache::deallocate` for the slab that holds an address.
use allocators.Common.{
  elem_at, ℕ, zero, suc, ◌+◌, ◌-◌, ◌*◌, ◌≤◌, ◌<◌, ◌≡◌, ◌⊎◌, refl, inl, inr, Bool, true, false, ◌&&◌,
  ◌||◌, Option, none, some, ltb, leb, ◌==◌, if◌then◌else◌, get_elem?, length, Bool-cases, arith,
  sym, ◌∙◌, subst, ap,
}
use allocators.SlabMulti.Slab
use allocators.SlabMulti.Cache.{Cache, search}
use mathlib.Core.Option.{some-injective}

-- Whether the search from `act` on, and then from 0 on, is at `j` before it is at `i`.
abbrev pub earlier : (act j i : ℕ) → Bool
earlier act j i = if leb act i then leb act j && ltb j i else leb act j || ltb j i

earlier_first : (act j i : ℕ) → act ≤ i → earlier act j i ≡ true → (act ≤ j) × (j < i)
earlier_first act j i le e = (ground arith, ground arith)

earlier_second : (act j i : ℕ) → i < act → earlier act j i ≡ true → (act ≤ j) ⊎ (j < i)
earlier_second act j i lt e = elim (Bool-cases (leb act j)) [
  | inl le ↦ inl (ground arith)
  | inr gt ↦ inr (ground arith)
]

module _ (ptr : ℕ) (c : Cache) where
  -- The address lies in the slab at index `i`.
  abbrev pub Holds : ℕ → Type 0
  Holds i =
      (m : ℕ) × (get_elem? c.ptrs i ≡ some m)
      × (Slab.contains_mem ptr m c.block_size c.count ≡ true)

  -- It does not, if there is one.
  abbrev pub Lacks : ℕ → Type 0
  Lacks i =
      (m : ℕ) → get_elem? c.ptrs i ≡ some m → Slab.contains_mem ptr m c.block_size c.count ≡ false

  Lacks-at :
      (i m : ℕ)
      → get_elem? c.ptrs i ≡ some m
      → Slab.contains_mem ptr m c.block_size c.count ≡ false
      → Lacks i
  Lacks-at i m at out m' at' =
      subst (λ (x : ℕ). Slab.contains_mem ptr x c.block_size c.count ≡ false)
        (some-injective _ _ (sym at ∙ at')) out

  -- What the part of the search up to `e` comes to, where `rest` is the part after it.
  Pass : (result : Option ℕ) (mit e : ℕ) (rest : Option ℕ) → Type 0
  Pass result mit e rest =
      ((i : ℕ) × (result ≡ some i)
        × (mit ≤ i)
        × (i < e)
        × Holds i
        × ((j : ℕ) → mit ≤ j → j < i → Lacks j))
      ⊎ ((result ≡ rest) × ((j : ℕ) → mit ≤ j → j < e → Lacks j))

  abbrev after : (fuel e : ℕ) → Option ℕ
  after fuel e = if (e == c.act) || (0 == c.act) then none else search fuel ptr 0 c.act c

  module _ (fuel mit e m : ℕ) (at : get_elem? c.ptrs mit ≡ some m) where
    search_found :
        Slab.contains_mem ptr m c.block_size c.count ≡ true
        → search (suc fuel) ptr mit e c ≡ some mit
    unfolding search
    search_found here = rw (at, here) refl

    search_last :
        Slab.contains_mem ptr m c.block_size c.count ≡ false
        → suc mit ≡ e
        → search (suc fuel) ptr mit e c ≡ after fuel e
    unfolding search
    search_last out last =
        let last' : (suc mit == e) ≡ true = ground arith in rw (at, out, last') refl

    search_next :
        Slab.contains_mem ptr m c.block_size c.count ≡ false
        → suc mit < e
        → search (suc fuel) ptr mit e c ≡ search fuel ptr (suc mit) e c
    unfolding search
    search_next out more =
        let more' : (suc mit == e) ≡ false = ground arith in rw (at, out, more') refl

  Lacks-one : (mit j : ℕ) → Lacks mit → mit ≤ j → j < suc mit → Lacks j
  Lacks-one mit j lacks le lt = subst Lacks (omega arith) lacks

  Lacks-more :
      (mit i : ℕ)
      → Lacks mit
      → ((j : ℕ) → suc mit ≤ j → j < i → Lacks j)
      → (j : ℕ) → mit ≤ j
      → j < i
      → Lacks j
  Lacks-more mit i lacks later j le lt = elim (Bool-cases (mit == j)) [
    | inl same ↦ subst Lacks (ground arith) lacks
    | inr other ↦ later j (ground arith) lt
  ]

  pass :
      (n all fuel mit e : ℕ)
      → all ≡ suc n + fuel
      → mit + suc n ≡ e
      → e ≤ length c.ptrs
      → Pass (search all ptr mit e c) mit e (after fuel e)
  unfolding Pass
  pass n zero fuel mit e split total le = absurd (omega arith)
  pass zero (suc all) fuel mit e split total le =
      let (m, at) = elem_at c.ptrs mit (omega arith) in
      elim (Bool-cases (Slab.contains_mem ptr m c.block_size c.count)) [
        | inl here ↦ inl (
          mit,
          search_found all mit e m at here,
          omega arith,
          omega arith,
          (m, at, here),
          λ j l t. absurd (omega arith),
        )
        | inr out ↦ inr (
          search_last all mit e m at out (omega arith) ∙ ap (λ f. after f e) (omega arith),
          λ j l t. Lacks-one mit j (Lacks-at mit m at out) l (omega arith),
        )
      ]
  pass (suc n) (suc all) fuel mit e split total le =
      let (m, at) = elem_at c.ptrs mit (omega arith) in
      let rest = pass n all fuel (suc mit) e (omega arith) (omega arith) le in
      elim (Bool-cases (Slab.contains_mem ptr m c.block_size c.count)) [
        | inl here ↦ inl (
          mit,
          search_found all mit e m at here,
          omega arith,
          omega arith,
          (m, at, here),
          λ j l t. absurd (omega arith),
        )
        | inr out ↦
            let step = search_next all mit e m at out (omega arith) in
            elim rest [
              | inl (i, found, l, t, holds, before) ↦ inl (
                i,
                step ∙ found,
                omega arith,
                t,
                holds,
                Lacks-more mit i (Lacks-at mit m at out) before,
              )
              | inr (stop, lacks) ↦
                  inr (step ∙ stop, Lacks-more mit e (Lacks-at mit m at out) lacks)
            ]
      ]

  -- What a search over all slabs comes to.
  Outcome : (result : Option ℕ) → Type 0
  Outcome result =
      ((result ≡ none) × ((i : ℕ) → i < length c.ptrs → Lacks i))
      ⊎ ((i : ℕ) × (result ≡ some i)
          × (i < length c.ptrs)
          × Holds i
          × ((j : ℕ) → j < length c.ptrs → earlier c.act j i ≡ true → Lacks j))

  -- The part from the first slab on, once the slabs from the active one on lack the address.
  second_pass :
      (fuel : ℕ) (result : Option ℕ)
      → 0 < c.act
      → c.act < length c.ptrs
      → c.act ≤ fuel
      → result ≡ search fuel ptr 0 c.act c
      → ((j : ℕ) → c.act ≤ j → j < length c.ptrs → Lacks j)
      → Outcome result
  unfolding Pass Outcome
  second_pass fuel result pos inside enough start lacks =
      let same : (c.act == c.act) ≡ true = ground arith in
      let ended : after (fuel - c.act) c.act ≡ none = rw same refl in
      elim (pass (c.act - 1) fuel (fuel - c.act) 0 c.act (omega arith) (omega arith)
        (omega arith)) [
          | inl (i, found, l, t, holds, before) ↦ inr (
            i,
            start ∙ found,
            omega arith,
            holds,
            λ j lt e. elim (earlier_second c.act j i t e) [
              | inl high ↦ lacks j high lt
              | inr low ↦ before j (omega arith) low
            ],
          )
          | inr (stop, lacks') ↦ inl (
            start ∙ stop ∙ ended,
            λ i lt. elim (Bool-cases (leb c.act i)) [
              | inl high ↦ lacks i (ground arith) lt
              | inr low ↦ lacks' i (omega arith) (ground arith)
            ],
          )
        ]

  pub search_cases :
      c.act < length c.ptrs
      → ((search (suc (2 * length c.ptrs)) ptr c.act (length c.ptrs) c ≡ none)
          × ((i : ℕ) → i < length c.ptrs → Lacks i))
        ⊎ ((i : ℕ) × (search (suc (2 * length c.ptrs)) ptr c.act (length c.ptrs) c ≡ some i)
            × (i < length c.ptrs)
            × Holds i
            × ((j : ℕ) → j < length c.ptrs → earlier c.act j i ≡ true → Lacks j))
  unfolding Pass Outcome
  search_cases inside =
      let len = length c.ptrs in
      let fuel = len + c.act + 1 in
      let behind : (len == c.act) ≡ false = ground arith in
      elim (pass (len - c.act - 1) (suc (2 * len)) fuel c.act len (omega arith) (omega arith)
        (omega arith)) [
          | inl (i, found, l, t, holds, before) ↦ inr (
            i,
            found,
            t,
            holds,
            λ j lt e. let (low, high) = earlier_first c.act j i l e in before j low high,
          )
          | inr (stop, lacks) ↦ elim (Bool-cases (0 == c.act)) [
            | inl start ↦ inl (stop ∙ rw (start, behind) refl, λ i lt. lacks i (ground arith) lt)
            | inr later ↦
                second_pass fuel (search (suc (2 * len)) ptr c.act len c) (ground arith) inside
                  (omega arith) (stop ∙ rw (behind, later) refl) lacks
          ]
        ]
