-- ===== src/SlabMulti/Lengths.antt =====
-- Threads over one `ImplSlabMulti::Cache`: its two vectors stay equally long.
use mathlib.Core.Option.{some-injective}
use allocators.Common.{
  ℕ, ◌-◌, ◌≡◌, refl, Bool, List, [], ◌∷◌, ◌++◌, some, ◌>>=◌, arith, get_elem?, set, length, ap, ◌∙◌,
  sym, subst, elem_at, ◌==◌, Bool-cases, inl, inr, bind_inversion, length-set, length-append,
}
use allocators.SlabHelper.Splice.{back, pop_back}
use allocators.SlabMulti.Dispatcher.{GlobalDispatch}
use allocators.SlabMulti.Slab
use allocators.SlabMulti.Slab.{Slab}
use allocators.SlabMulti.Cache.{Cache, next_slab, swap_back, add_cache}
use allocators.SlabMulti.Vectors.{length-pop_back}
use allocators.SlabMulti.Gives.{add_cache-Added}
use allocators.SlabMulti.Takes.{splice_both-supply, mem_to_dispatch-supply}
use allocators.SlabMulti.Threads.{Pc, Shared, Move}

length-swap_back :
    {A : Type 0} (i : ℕ) (xs ys : List A) → swap_back i xs ≡ some ys → length ys ≡ length xs
unfolding swap_back
length-swap_back i [] ys e = absurd (cc)
length-swap_back i (a ∷ xs) ys e =
    let (x, at, e1) = bind_inversion (get_elem? (a ∷ xs) i) _ ys e in
    let (b, last, e2) = bind_inversion (back (a ∷ xs)) _ ys e1 in
    rw (← some-injective _ _ e2) (
      length-set (pop_back (a ∷ xs) ++ x ∷ []) i b
      ∙ length-append (pop_back (a ∷ xs)) (x ∷ [])
      ∙ omega (arith, length-pop_back (a ∷ xs) (omega arith)))

abbrev pub IsPaired : Cache → Type 0
IsPaired c = length c.ptrs ≡ length c.slabs

module _ (fresh : ℕ → ℕ) (d : GlobalDispatch) (c : Cache) (s : Slab) (paired : IsPaired c) where
  grown-IsPaired :
      (r : GlobalDispatch × Cache)
      → (do
        (d', c') ← add_cache fresh d c
        slabs ← swap_back c.act c'.slabs
        ptrs ← swap_back c.act c'.ptrs
        some (d', record c' { slabs = slabs; ptrs = ptrs }))
        ≡ some r
      → IsPaired r.1
  grown-IsPaired r e =
      let (q, added, e1) = bind_inversion (add_cache fresh d c) _ r e in
      let (slabs, e_slabs, e2) = bind_inversion (swap_back c.act q.1.slabs) _ r e1 in
      let (ptrs, e_ptrs, e3) = bind_inversion (swap_back c.act q.1.ptrs) _ r e2 in
      let (ids, m, d', _, _, ss, ps) = add_cache-Added fresh d c q added in
      let len = length-swap_back c.act q.1.slabs slabs e_slabs ∙ ap length ss in
      let len' = length-swap_back c.act q.1.ptrs ptrs e_ptrs ∙ ap length ps in
      subst (λ (z : GlobalDispatch × Cache). IsPaired z.1) (some-injective _ _ e3)
        (omega
          (arith, len, len', paired, length-append c.slabs (_ ∷ []), length-append c.ptrs (m ∷ [])))

  next_slab-IsPaired : (r : GlobalDispatch × Cache) → next_slab fresh s d c ≡ some r → IsPaired r.1
  unfolding next_slab
  next_slab-IsPaired r e = elim (Bool-cases (Slab.full s)) [
    | inr more ↦
        let merged = record c { slabs = set c.slabs c.act (Slab.merge_foreigns s) } in
        let step : next_slab fresh s d c ≡ some (d, merged) = rw more refl in
        subst (λ (z : GlobalDispatch × Cache). IsPaired z.1) (some-injective _ _ (sym step ∙ e))
          (paired ∙ sym (length-set c.slabs c.act (Slab.merge_foreigns s)))
    | inl none_left ↦ elim (Bool-cases (c.act == 0)) [
      | inl first ↦ grown-IsPaired r (sym (rw (none_left, first) refl) ∙ e)
      | inr later ↦
          let step : next_slab fresh s d c ≡ some (d, record c { act = c.act - 1 }) =
            rw (none_left, later) refl in
          subst (λ (z : GlobalDispatch × Cache). IsPaired z.1) (some-injective _ _ (sym step ∙ e))
            paired
    ]
  ]

module _ {fresh : ℕ → ℕ} {owner : Bool} {A : Type 0} (m : Shared) (paired : IsPaired m.cache) where
  pub Move-IsPaired : {p p' : Pc} {m' : Shared} → Move fresh owner A m p m' p' → IsPaired m'.cache
  Move-IsPaired (Move.pop {b} {s' = s'} at got) = paired ∙ sym (length-set m.cache.slabs b s')
  Move-IsPaired (Move.refill {s = s} {d = d} {c = c} alone at e) =
      next_slab-IsPaired fresh m.dispatcher m.cache s paired (d, c) e
  Move-IsPaired (Move.give_back ptr l r {it} e found at at_mem) =
      paired ∙ sym (length-set m.cache.slabs it _)
  Move-IsPaired (Move.splice {it} {c} alone lt e) =
      let (s, at) = elem_at m.cache.slabs it lt in
      let (mem, at_mem) = elem_at m.cache.ptrs it (omega (arith, paired)) in
      let (z, e', _, len) = splice_both-supply m.cache it s mem paired at at_mem in
      subst IsPaired (some-injective _ _ (sym e' ∙ e)) len
  Move-IsPaired (Move.dispatch {it} {c} alone lt e) =
      let (s, at) = elem_at m.cache.slabs it lt in
      let (mem, at_mem) = elem_at m.cache.ptrs it (omega (arith, paired)) in
      let (z, e', _, len) = mem_to_dispatch-supply m.cache it s mem paired at at_mem in
      subst IsPaired (some-injective _ _ (sym e' ∙ e)) len
  Move-IsPaired _ = paired
